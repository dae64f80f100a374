-- ===== src/WsClient.antt =====
-- The device's WebSocket client: main/doubao_ws_client.h and main/doubao_ws_client.c.
pub mod Command
pub mod State
pub mod SessionJson
pub mod Uuid
pub mod Requests
pub mod Receive
pub mod Lifecycle
