-- ===== src/WsClient/Receive.antt =====
-- `ws_event_handler` of main/doubao_ws_client.c.
pub mod Reassembly
pub mod Bounds
use esp32s3_box3_doubao.Common.{
  ℕ, ◌+◌, Bool, true, false, not, ◌&&◌, ◌||◌, Option, none, some, List, [], ◌∷◌, ◌++◌, length, ltb,
  leb, ◌==◌, Exec, ok, fail, fault, ◌>>=◌, if◌then◌else◌,
}
use esp32s3_box3_doubao.Common.Words.{add_size, mul_size}
use esp32s3_box3_doubao.Protocol.Platform.{Platform}
use esp32s3_box3_doubao.Protocol.Response.{Response, parse_response}
use esp32s3_box3_doubao.WsClient.State.{WsClient}

-- `esp_websocket_event_data_t`: a chunk of a frame. `data_len` is the length of `data_ptr`.
pub record Chunk : Type 0 where
  pub op_code : ℕ
  pub data_ptr : List ℕ
  pub payload_len : ℕ
  pub payload_offset : ℕ

pub data WsEvent : Type 0 where
  connected_event disconnected_event error_event other_event : WsEvent
  data_event : Chunk → WsEvent

-- What `on_recv` is called with. A response that does not parse is only logged.
unfoldable pub deliver : Exec Response → Exec (List Response)
deliver (ok resp) = ok (resp ∷ [])
deliver fail = ok []
deliver fault = fault

-- The capacity that holds `needed` bytes; `none` is a `heap_caps_realloc` that fails.
unfoldable pub grow : (ℕ → Bool) → ℕ → ℕ → Option ℕ
grow realloc cap needed =
    let doubled = mul_size needed 2 in
    let new_cap = if ltb doubled 8192 then 8192 else doubled in
    if not (ltb cap needed) then some cap else if realloc new_cap then some new_cap else none

-- `memcpy` behind what is held, into a buffer of `cap` bytes.
unfoldable pub append_chunk : WsClient → ℕ → List ℕ → Exec WsClient
append_chunk client cap bytes =
    if ltb cap (length client.recv_data + length bytes)
    then fault
    else ok (record client { recv_data = client.recv_data ++ bytes; recv_buf_cap = cap })

-- The end of a frame: the buffer is parsed, and emptied.
unfoldable pub complete : Platform → WsClient → Exec (WsClient × List Response)
unfolding deliver
complete P client = do
  delivered ←
      if client.has_recv && ltb 0 (length client.recv_data)
      then deliver (parse_response P client.recv_data)
      else ok []
  ok (record client { recv_data = [] }, delivered)

-- With the capacity that `grow` found. A buffer that cannot grow loses what it holds.
unfoldable pub receive_with :
    Platform → WsClient → Chunk → Option ℕ → Exec (WsClient × List Response)
receive_with P client chunk none = ok (record client { recv_data = [] }, [])
receive_with P client chunk (some cap) = do
  filled ← append_chunk client cap chunk.data_ptr
  if leb chunk.payload_len (chunk.payload_offset + length chunk.data_ptr)
      then complete P filled
      else ok (filled, [])

unfoldable pub receive : Platform → (ℕ → Bool) → WsClient → Chunk → Exec (WsClient × List Response)
receive P realloc client chunk =
    let needed = add_size (length client.recv_data) (length chunk.data_ptr) in
    if length chunk.data_ptr == 0
    then ok (client, [])
    else receive_with P client chunk (grow realloc client.recv_buf_cap needed)

-- The handler: the new state, and the responses handed to `on_recv`.
unfoldable pub ws_event_handler :
    Platform → (ℕ → Bool) → WsClient → WsEvent → Exec (WsClient × List Response)
ws_event_handler P realloc client connected_event =
    ok (record client { connected = true; connected_bit = true }, [])
ws_event_handler P realloc client disconnected_event =
    ok (record client { connected = false; disconnected_bit = true }, [])
ws_event_handler P realloc client error_event = ok (client, [])
ws_event_handler P realloc client other_event = ok (client, [])
ws_event_handler P realloc client (data_event chunk) =
    if chunk.op_code == 0x01 || chunk.op_code == 0x02 || chunk.op_code == 0x00
    then receive P realloc client chunk
    else ok (client, [])

-- Events in order, with all that is delivered.
unfoldable pub run_events :
    Platform → (ℕ → Bool) → WsClient → List WsEvent → Exec (WsClient × List Response)
run_events P realloc client [] = ok (client, [])
run_events P realloc client (e ∷ es) = do
  (next, first) ← ws_event_handler P realloc client e
  (end, rest) ← run_events P realloc next es
  ok (end, first ++ rest)
