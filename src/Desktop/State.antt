-- ===== src/Desktop/State.antt =====
-- `doubao_client_t` of doubao_c_version/client.h, and what the client takes from libwebsockets.
use esp32s3_box3_doubao.Common.{ℕ, Bool, Option, List}
use esp32s3_box3_doubao.Desktop.SendQueue.{SendQueue}

-- A text is its bytes in front of the terminating zero. `recv_buf` says that the pointer is not
-- NULL, and `recv_data` is what stands in the buffer. `wanted` says that the socket has been asked
-- for a writable callback that has not come yet.
pub record Client : Type 0 where
  pub app_id : List ℕ
  pub access_key : List ℕ
  pub resource_id : List ℕ
  pub app_key : List ℕ
  pub connect_id : List ℕ
  pub session_id : List ℕ
  pub input_mod : List ℕ
  pub asr_audio_format : List ℕ
  pub use_opus_input : Bool
  pub recv_timeout : ℕ
  pub queue : SendQueue
  pub recv_buf : Bool
  pub recv_data : List ℕ
  pub recv_buf_cap : ℕ
  pub has_recv : Bool
  pub wsi : Bool
  pub wanted : Bool
  pub connected : Bool
  pub running : Bool
  pub logid : List ℕ

-- `lws_write` returns no negative number, `lws_add_http_header_by_name` succeeds, and the text that
-- `lws_hdr_custom_copy` finds.
pub record Lws : Type 0 where
  pub write : List ℕ → Bool
  pub add_http_header : List ℕ → List ℕ → Bool
  pub hdr_custom : Option (List ℕ)
