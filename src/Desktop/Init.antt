-- ===== src/Desktop/Init.antt =====
-- What `client_init` and `client_set_recv_callback` of doubao_c_version/client.c leave in the client;
-- Desktop.Lifecycle has what they own.
use esp32s3_box3_doubao.Common.{
  ℕ, Bool, true, false, ◌||◌, Option, none, some, List, [], length, take, replicate, ltb, ◌==◌, ◌*◌,
  if◌then◌else◌,
}
use esp32s3_box3_doubao.Common.Text.{utf8}
use esp32s3_box3_doubao.WsClient.Uuid.{generate_uuid}
use esp32s3_box3_doubao.Desktop.SendQueue.{queue_size}
use esp32s3_box3_doubao.Desktop.State.{Client}

-- CLIENT_RECV_BUF_SIZE.
abbrev pub recv_buf_size : ℕ
recv_buf_size = 256 * 1024

-- All that `memset` leaves.
abbrev pub blank : Client
blank = record {
  app_id = [];
  access_key = [];
  resource_id = [];
  app_key = [];
  connect_id = [];
  session_id = [];
  input_mod = [];
  asr_audio_format = [];
  use_opus_input = false;
  recv_timeout = 0;
  queue = record { slots = replicate queue_size none; send_head = 0; send_tail = 0 };
  recv_buf = false;
  recv_data = [];
  recv_buf_cap = 0;
  has_recv = false;
  wsi = false;
  wanted = false;
  connected = false;
  running = false;
  logid = [];
}

-- The arguments, and what comes from outside: the two environment variables, `rand` and `malloc`.
pub record InitArgs : Type 0 where
  pub session_id : List ℕ
  pub input_mod : List ℕ
  pub asr_audio_format : Option (List ℕ)
  pub recv_timeout : ℕ
  pub app_id : Option (List ℕ)
  pub access_key : Option (List ℕ)
  pub random : ℕ → ℕ
  pub malloc_ok : Bool

-- A variable that is not set, or is empty.
abbrev missing : Option (List ℕ) → Bool
missing none = true
missing (some text) = length text == 0

abbrev pub text_or_empty : Option (List ℕ) → List ℕ
text_or_empty none = []
text_or_empty (some text) = text

-- `strncpy` into cleared arrays, with room for the terminating zero. The receive buffer is not looked
-- at: without memory it is NULL, with its capacity set.
unfoldable pub client_init : InitArgs → Bool × Client
client_init a =
    let format = text_or_empty a.asr_audio_format in
    if missing a.app_id || missing a.access_key then (false, blank) else (
      true,
      record blank {
        app_id = take 127 (text_or_empty a.app_id);
        access_key = take 127 (text_or_empty a.access_key);
        resource_id = take 127 (utf8 "volc.speech.dialog");
        app_key = take 63 (utf8 "PlgvMymc7f3tQnJ6");
        connect_id = generate_uuid a.random 64;
        session_id = take 127 a.session_id;
        input_mod = take 31 a.input_mod;
        asr_audio_format = take 31 format;
        use_opus_input = ltb 0 (length format);
        recv_timeout = a.recv_timeout;
        recv_buf = a.malloc_ok;
        recv_buf_cap = recv_buf_size;
        running = true;
      },
    )

unfoldable pub client_set_recv_callback : Client → Client
client_set_recv_callback client = record client { has_recv = true }
