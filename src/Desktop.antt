-- ===== src/Desktop.antt =====
-- The desktop client: doubao_c_version/.
pub mod Host
pub mod Gzip
pub mod Response
pub mod SendQueue
pub mod State
pub mod Init
pub mod Send
pub mod Callback
pub mod SessionJson
pub mod Command
pub mod Requests
pub mod Lifecycle
pub mod Audio
pub mod Session
pub mod Conversation
pub mod Program
