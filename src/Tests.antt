-- ===== src/Tests.antt =====
-- The theorems applied to concrete inputs.
mod Fixtures
mod Protocol
mod Client
mod Desktop
mod Playback
mod Session
mod Decoder
mod Application
mod Conversation
mod Device
