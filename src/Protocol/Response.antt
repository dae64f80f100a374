-- ===== src/Protocol/Response.antt =====
-- `parsed_response_t` and `protocol_parse_response` of main/doubao_protocol.c.
pub mod Safety
pub mod Encode
pub mod RoundTrip
use esp32s3_box3_doubao.Common.{
  ℕ, ◌+◌, ◌-◌, ◌*◌, ◌^◌, Bool, true, false, not, ◌&&◌, ◌||◌, Option, none, some, List, [], ◌∷◌,
  ◌++◌, Exec, ok, fail, fault, fail_if, ◌>>=◌, ◌>>◌, read, slice, store, length, take, drop,
  replicate, min, ltb, leb, ◌==◌, if◌then◌else◌, bit_and,
}
use esp32s3_box3_doubao.Common.Words.{shr, add_size, sub_size, mul_size, minus_one}
use esp32s3_box3_doubao.Protocol.Constants.{
  msg_server_full_response, msg_server_ack, msg_server_error, flag_neg_sequence,
  flag_msg_with_event, serial_none, compress_gzip,
}
use esp32s3_box3_doubao.Protocol.Platform.{Platform, allocates}
use esp32s3_box3_doubao.Protocol.Gzip.{gzip_decompress}
use esp32s3_box3_doubao.Protocol.Wire.{read_u32_be}

-- An `int` is its 32-bit pattern; `session_id` is the whole array of 128 bytes.
pub record Response : Type 0 where
  pub message_type : ℕ
  pub event : ℕ
  pub has_event : Bool
  pub seq : ℕ
  pub has_seq : Bool
  pub session_id : List ℕ
  pub payload_size : ℕ
  pub payload_data : Option (List ℕ)
  pub payload_data_len : ℕ
  pub is_binary : Bool
  pub error_code : ℕ

abbrev pub session_id_size : ℕ
session_id_size = 128

-- `memset(resp, 0, sizeof(*resp)); resp->event = -1;`
abbrev pub cleared : Response
cleared = record {
  message_type = 0;
  event = minus_one;
  has_event = false;
  seq = 0;
  has_seq = false;
  session_id = replicate session_id_size 0;
  payload_size = 0;
  payload_data = none;
  payload_data_len = 0;
  is_binary = false;
  error_code = 0;
}

-- `if (offset + 4 > payload_len) return -1;`, the number at `offset`, and the offset behind it.
unfoldable pub take_word : List ℕ → ℕ → Exec (ℕ × ℕ)
take_word payload offset = do
  fail_if (ltb (length payload) (add_size offset 4))
  v ← read_u32_be payload offset
  ok (v, add_size offset 4)

unfoldable pub parse_sequence : ℕ → List ℕ → Response × ℕ → Exec (Response × ℕ)
parse_sequence msg_flags payload (resp, offset) =
    if bit_and msg_flags flag_neg_sequence == 0
    then ok (resp, offset)
    else do (v, next) ← take_word payload offset; ok (record resp { seq = v; has_seq = true }, next)

unfoldable pub parse_event : ℕ → List ℕ → Response × ℕ → Exec (Response × ℕ)
parse_event msg_flags payload (resp, offset) =
    if bit_and msg_flags flag_msg_with_event == 0 then ok (resp, offset) else do
      (v, next) ← take_word payload offset
      ok (record resp { event = v; has_event = true }, next)

-- `memcpy` of at most 127 bytes of the payload into the zeroed array, and a zero byte behind them.
unfoldable pub copy_session_id : List ℕ → ℕ → ℕ → Exec (List ℕ)
copy_session_id payload offset sid_len = do
  let copy_len = if ltb sid_len (session_id_size - 1) then sid_len else session_id_size - 1
  copied ← slice payload offset copy_len
  written ← store session_id_size copied (0 ∷ [])
  ok (written ++ replicate (session_id_size - length written) 0)

-- `sid_len` is an `int32_t`: positive when its pattern is neither 0 nor has the sign bit.
unfoldable pub parse_session_id : List ℕ → Response × ℕ → Exec (Response × ℕ)
parse_session_id payload (resp, offset) = do
  (sid_len, next) ← take_word payload offset
  if sid_len == 0 || leb (2 ^ 31) sid_len then ok (resp, next) else do
    fail_if (ltb (length payload) (add_size next sid_len))
    copied ← copy_session_id payload next sid_len
    ok (record resp { session_id = copied }, add_size next sid_len)

-- The payload itself: inflated, or copied into a new block.
unfoldable pub unpack : Platform → ℕ → List ℕ → Exec (List ℕ)
unpack P compression msg_data =
    if compression == compress_gzip
    then gzip_decompress P msg_data
    else do fail_if (not (allocates P (length msg_data))); ok msg_data

unfoldable pub parse_payload : Platform → ℕ → ℕ → List ℕ → Response × ℕ → Exec Response
parse_payload P serial_method compression payload (resp, offset) = do
  (size, next) ← take_word payload offset
  let msg_data = drop next payload
  let sized = record resp { payload_size = size }
  if length msg_data == 0 || size == 0
      then ok (record sized { payload_data = none; payload_data_len = 0 })
      else do
        out ← unpack P compression msg_data
        ok (record sized {
          is_binary = serial_method == serial_none;
          payload_data = some out;
          payload_data_len = length out;
        })

-- MSG_SERVER_FULL_RESPONSE and MSG_SERVER_ACK.
unfoldable pub parse_message : Platform → ℕ → ℕ → ℕ → List ℕ → Response → Exec Response
unfolding parse_sequence parse_event parse_session_id parse_payload take_word
parse_message P msg_flags serial_method compression payload resp = do
  with_sequence ← parse_sequence msg_flags payload (resp, 0)
  with_event ← parse_event msg_flags payload with_sequence
  with_session ← parse_session_id payload with_event
  parse_payload P serial_method compression payload with_session

-- A failed `gzip_decompress` is a null pointer, and leaves the length 0.
unfoldable pub or_empty : Exec (List ℕ) → Exec (Option (List ℕ) × ℕ)
or_empty (ok out) = ok (some out, length out)
or_empty fail = ok (none, 0)
or_empty fault = fault

-- The detail of an error: a failed `gzip_decompress` leaves no data and length 0, a failed `malloc`
-- no data and the length of the message.
unfoldable pub error_detail : Platform → ℕ → List ℕ → Exec (Option (List ℕ) × ℕ)
unfolding or_empty
error_detail P compression msg_data =
    if compression == compress_gzip
    then or_empty (gzip_decompress P msg_data)
    else ok (if P.malloc (length msg_data) then some msg_data else none, length msg_data)

-- MSG_SERVER_ERROR.
unfoldable pub parse_error : Platform → ℕ → List ℕ → Response → Exec Response
parse_error P compression payload resp = do
  fail_if (ltb (length payload) 8)
  code ← read_u32_be payload 0
  size ← read_u32_be payload 4
  let coded = record resp { error_code = code; payload_size = size }
  let msg_data = drop 8 payload
  if length msg_data == 0 then ok coded else do
    (out, out_len) ← error_detail P compression msg_data
    ok (record coded { payload_data = out; payload_data_len = out_len })

unfoldable pub parse_response : Platform → List ℕ → Exec Response
parse_response P bytes = do
  fail_if (ltb (length bytes) 4)
  b0 ← read bytes 0
  b1 ← read bytes 1
  b2 ← read bytes 2
  let header_bytes = bit_and b0 0x0F * 4
  let message_type = shr b1 4
  let msg_flags = bit_and b1 0x0F
  let serial_method = shr b2 4
  let compression = bit_and b2 0x0F
  fail_if (ltb (length bytes) header_bytes)
  let payload = drop header_bytes bytes
  let resp = record cleared { message_type = message_type }
  if message_type == msg_server_full_response || message_type == msg_server_ack
      then parse_message P msg_flags serial_method compression payload resp
      else if message_type == msg_server_error
      then parse_error P compression payload resp
      else ok resp
