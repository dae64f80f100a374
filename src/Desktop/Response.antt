-- ===== src/Desktop/Response.antt =====
-- `protocol_parse_response` of doubao_c_version/protocol.c, for a `size_t` of 64 bits. The structure
-- `parsed_response_t` and the constants of doubao_c_version/protocol.h are those of the device.
pub mod Agreement
use esp32s3_box3_doubao.Common.{
  ℕ, ◌+◌, ◌*◌, ◌^◌, Bool, true, false, not, ◌||◌, Option, none, some, List, Exec, ok, fail, fault,
  fail_if, ◌>>=◌, ◌>>◌, read, length, take, drop, ltb, leb, ◌==◌, if◌then◌else◌, bit_and,
}
use esp32s3_box3_doubao.Common.Words.{shr, add_size64}
use esp32s3_box3_doubao.Protocol.Constants.{
  msg_server_full_response, msg_server_ack, msg_server_error, flag_neg_sequence,
  flag_msg_with_event, serial_json, serial_none, compress_gzip,
}
use esp32s3_box3_doubao.Protocol.Wire.{read_u32_be}
use esp32s3_box3_doubao.Protocol.Response.{Response, cleared, copy_session_id, or_empty}
use esp32s3_box3_doubao.Desktop.Host.{Host}
use esp32s3_box3_doubao.Desktop.Gzip.{gzip_decompress}

-- `if (offset + 4 > payload_len) return -1;`, the number at `offset`, and the offset behind it.
unfoldable pub take_word : List ℕ → ℕ → Exec (ℕ × ℕ)
take_word payload offset = do
  fail_if (ltb (length payload) (add_size64 offset 4))
  v ← read_u32_be payload offset
  ok (v, add_size64 offset 4)

unfoldable pub parse_sequence : ℕ → List ℕ → Response × ℕ → Exec (Response × ℕ)
parse_sequence msg_flags payload (resp, offset) =
    if bit_and msg_flags flag_neg_sequence == 0
    then ok (resp, offset)
    else do (v, next) ← take_word payload offset; ok (record resp { seq = v; has_seq = true }, next)

unfoldable pub parse_event : ℕ → List ℕ → Response × ℕ → Exec (Response × ℕ)
parse_event msg_flags payload (resp, offset) =
    if bit_and msg_flags flag_msg_with_event == 0 then ok (resp, offset) else do
      (v, next) ← take_word payload offset
      ok (record resp { event = v; has_event = true }, next)

unfoldable pub parse_session_id : List ℕ → Response × ℕ → Exec (Response × ℕ)
parse_session_id payload (resp, offset) = do
  (sid_len, next) ← take_word payload offset
  if sid_len == 0 || leb (2 ^ 31) sid_len then ok (resp, next) else do
    fail_if (ltb (length payload) (add_size64 next sid_len))
    copied ← copy_session_id payload next sid_len
    ok (record resp { session_id = copied }, add_size64 next sid_len)

abbrev is_binary_of : ℕ → Bool
is_binary_of serial_method =
    if serial_method == serial_json
    then false
    else if serial_method == serial_none
    then true
    else false

module _ (H : Host) (fuel : ℕ) where
  unfoldable pub unpack : ℕ → List ℕ → Exec (List ℕ)
  unpack compression msg_data =
      if compression == compress_gzip
      then gzip_decompress H fuel msg_data
      else do fail_if (not (H.malloc (length msg_data))); ok msg_data

  unfoldable pub parse_payload : ℕ → ℕ → List ℕ → Response × ℕ → Exec Response
  parse_payload serial_method compression payload (resp, offset) = do
    (size, next) ← take_word payload offset
    let msg_data = drop next payload
    let sized = record resp { payload_size = size }
    if length msg_data == 0 || size == 0
        then ok (record sized { payload_data = none; payload_data_len = 0 })
        else do
          out ← unpack compression msg_data
          ok (record sized {
            is_binary = is_binary_of serial_method;
            payload_data = some out;
            payload_data_len = length out;
          })

  unfoldable pub parse_message : ℕ → ℕ → ℕ → List ℕ → Response → Exec Response
  parse_message msg_flags serial_method compression payload resp = do
    with_sequence ← parse_sequence msg_flags payload (resp, 0)
    with_event ← parse_event msg_flags payload with_sequence
    with_session ← parse_session_id payload with_event
    parse_payload serial_method compression payload with_session

  -- The detail of an error: a failed `gzip_decompress` leaves no data and length 0, a failed `malloc`
  -- no data and the length of the message.
  unfoldable pub error_detail : ℕ → List ℕ → Exec (Option (List ℕ) × ℕ)
  unfolding or_empty
  error_detail compression msg_data =
      if compression == compress_gzip
      then or_empty (gzip_decompress H fuel msg_data)
      else ok (if H.malloc (length msg_data) then some msg_data else none, length msg_data)

  unfoldable pub parse_error : ℕ → List ℕ → Response → Exec Response
  parse_error compression payload resp = do
    fail_if (ltb (length payload) 8)
    code ← read_u32_be payload 0
    size ← read_u32_be payload 4
    let coded = record resp { error_code = code; payload_size = size }
    let msg_data = drop 8 payload
    if length msg_data == 0 then ok coded else do
      (out, out_len) ← error_detail compression msg_data
      ok (record coded { payload_data = out; payload_data_len = out_len })

  unfoldable pub parse_response : List ℕ → Exec Response
  parse_response bytes = do
    fail_if (ltb (length bytes) 4)
    b0 ← read bytes 0
    b1 ← read bytes 1
    b2 ← read bytes 2
    let header_bytes = bit_and b0 0x0F * 4
    let message_type = shr b1 4
    let msg_flags = bit_and b1 0x0F
    let serial_method = shr b2 4
    let compression = bit_and b2 0x0F
    fail_if (ltb (length bytes) header_bytes)
    let payload = drop header_bytes bytes
    let resp = record cleared { message_type = message_type }
    if message_type == msg_server_full_response || message_type == msg_server_ack
        then parse_message msg_flags serial_method compression payload resp
        else if message_type == msg_server_error
        then parse_error compression payload resp
        else ok resp
