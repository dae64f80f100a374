-- ===== src/App.antt =====
-- The application of the device: main/app_main.c. Its tasks share the state of `State`.
pub mod State
pub mod Display
pub mod Receive
pub mod WakeWord
pub mod Fsm
pub mod Transmit
pub mod Playback
pub mod System
pub mod Boot
pub mod Capture
