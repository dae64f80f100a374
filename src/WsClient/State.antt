-- ===== src/WsClient/State.antt =====
-- `doubao_ws_config_t` and `doubao_ws_client_t` of main/doubao_ws_client.h.
use esp32s3_box3_doubao.Common.{ℕ, Bool, Option, List}

-- A text is its bytes in front of the terminating zero; a null pointer is `none`.
pub record WsConfig : Type 0 where
  pub app_id : List ℕ
  pub access_key : List ℕ
  pub app_key : Option (List ℕ)
  pub resource_id : Option (List ℕ)
  pub tts_speaker : Option (List ℕ)
  pub input_mod : Option (List ℕ)
  pub asr_audio_format : Option (List ℕ)
  pub recv_timeout : ℕ

-- A pointer is the number of its block. `recv_data` is the first `recv_buf_len` bytes of
-- `recv_buf`; the two bits are those of `event_group` that the client waits for; `has_recv` says
-- that `on_recv` is set.
pub record WsClient : Type 0 where
  pub ws_handle : Option ℕ
  pub session_id : List ℕ
  pub connect_id : List ℕ
  pub config : WsConfig
  pub recv_buf : Option ℕ
  pub recv_data : List ℕ
  pub recv_buf_cap : ℕ
  pub has_recv : Bool
  pub event_group : Option ℕ
  pub connected_bit : Bool
  pub disconnected_bit : Bool
  pub connected : Bool
  pub running : Bool
