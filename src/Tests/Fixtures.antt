-- ===== src/Tests/Fixtures.antt =====
-- The concrete inputs of the tests.
use esp32s3_box3_doubao.Common.{
  ◌^◌, arith, ◌+◌, ltb, length, take, drop, List, ℕ, true, false, none, some, [], ◌∷◌,
  if◌then◌else◌,
}
use esp32s3_box3_doubao.Common.Text.{utf8}
use esp32s3_box3_doubao.Protocol.Platform.{Platform}
use esp32s3_box3_doubao.Protocol.Response.Encode.{Message}
use esp32s3_box3_doubao.WsClient.State.{WsConfig, WsClient}
use esp32s3_box3_doubao.WsClient.Lifecycle.{Blocks, InitEnv, ConnectEnv}
use esp32s3_box3_doubao.Desktop.Audio.Decode.{Manager}
use esp32s3_box3_doubao.Desktop.Audio.Decode.Saving.{IsSaving}
use esp32s3_box3_doubao.Desktop.Host.{Host, stream_end, okay, Inflated}
use esp32s3_box3_doubao.Opus.{Page, Codec, Opus}

-- A platform with memory, on which both directions of raw deflate copy.
abbrev pub board : Platform
board = record {
  heap_caps_malloc = λ n. true;
  malloc = λ n. true;
  now = 1700000000;
  tinfl = λ n bytes zlib. if zlib then none else some bytes;
  tdefl_init_okay = true;
  tdefl = λ n bytes. some bytes;
  sizeof_tdefl_compressor = 4096;
}

abbrev pub asr_message : Message
asr_message = record {
  sequence = some 7;
  event = some 451;
  session = 97 ∷ 98 ∷ 99 ∷ [];
  size = 2;
  body = 123 ∷ 125 ∷ [];
}

abbrev pub app_config : WsConfig
app_config = record {
  app_id = utf8 "id";
  access_key = utf8 "key";
  app_key = some (utf8 "app");
  resource_id = some (utf8 "volc.speech.dialog");
  tts_speaker = none;
  input_mod = some (utf8 "audio");
  asr_audio_format = none;
  recv_timeout = 10;
}

abbrev pub open_client : WsClient
open_client = record {
  ws_handle = some 3;
  session_id = 97 ∷ 98 ∷ [];
  connect_id = 99 ∷ [];
  config = app_config;
  recv_buf = some 1;
  recv_data = [];
  recv_buf_cap = 65536;
  has_recv = true;
  event_group = some 2;
  connected_bit = false;
  disconnected_bit = false;
  connected = true;
  running = true;
}

abbrev pub closed_client : WsClient
closed_client = record open_client { connected = false }

abbrev pub heap : Blocks
heap = record { next = 1; live = [] }

abbrev pub init_works : InitEnv
init_works = record {
  spiram_ok = false;
  malloc_ok = true;
  event_group_ok = true;
  session_uuid = 97 ∷ 98 ∷ [];
  connect_uuid = 99 ∷ [];
}

abbrev pub late_connection : ConnectEnv
late_connection = record { handle_ok = true; start_ok = true; connected_in_time = false }

-- A page is one byte and carries three packets; a packet decodes to itself.
abbrev pub echo_codec : Codec
echo_codec = record {
  sync_buffer_ok = λ n. true;
  pageout = λ bytes. ([], bytes);
  pagein = λ held page. page.content;
  packetout = λ held. (held ∷ held ∷ held ∷ [], []);
  opus_decode = λ state packet. (some packet, state);
  opus_reset = λ state. [];
}

abbrev pub fresh_decoder : Opus
fresh_decoder = record {
  has_decoder = true;
  has_pcm_cb = true;
  decoder = [];
  ogg_sync = [];
  ogg_stream = [];
  serialno = 0;
  ogg_stream_inited = false;
  ogg_headers_parsed = false;
  ogg_header_count = 0;
}

abbrev pub first_page : Page
first_page = record { serialno = 5; bos = true; content = 1 ∷ [] }

-- A machine with memory, on which both directions of gzip copy.
abbrev pub copy_inflate : List ℕ → ℕ → Inflated
copy_inflate strm n =
    if ltb n (length strm)
    then record { ret = okay; out = take n strm; strm = drop n strm }
    else record { ret = stream_end; out = strm; strm = [] }

abbrev pub desk : Host
desk = record {
  lws_pre = 16;
  malloc = λ n. true;
  realloc = λ n. true;
  deflate_init_ok = true;
  compress_bound = λ n. n + 13;
  deflate = λ n bytes. some bytes;
  inflate_init_ok = true;
  start = λ bytes. bytes;
  inflate = copy_inflate;
}

abbrev pub paging_codec : Codec
paging_codec = record echo_codec { pageout = λ bytes. (first_page ∷ [], []) }

abbrev pub small_blocks : Host
small_blocks = record desk { realloc = λ n. ltb n (2 ^ 60) }

abbrev pub fresh_manager : Manager
fresh_manager = record {
  opus_decoder = true;
  decoder = [];
  ogg_sync = [];
  ogg_stream = [];
  serialno = 0;
  ogg_stream_inited = false;
  ogg_headers_parsed = false;
  ogg_header_count = 0;
  ogg_buffer = false;
  ogg_data = [];
  ogg_buffer_cap = 0;
}

pub fresh_manager-IsSaving : IsSaving fresh_manager
fresh_manager-IsSaving = record {
  small = omega arith;
  fits = omega arith;
  there = λ some_room. absurd (omega arith);
}
