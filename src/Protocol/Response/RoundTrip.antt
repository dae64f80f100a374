-- ===== src/Protocol/Response/RoundTrip.antt =====
-- `parse_response` reads back what the layout of the protocol writes.
use esp32s3_box3_doubao.Common.{
  ℕ, ◌+◌, ◌^◌, ◌<◌, ◌≡◌, ◌≢◌, refl, sym, ◌∙◌, ◌⊎◌, true, false, ◌||◌, Option, none, some, List, ◌∷◌,
  ◌++◌, arith, ok, ◌>>=◌, >>=_assoc, length, drop, replicate, ltb, ◌==◌, bit_and,
}
use esp32s3_box3_doubao.Common.Bits.{low_nibble}
use esp32s3_box3_doubao.Common.Words.{IsU32, shr}
use esp32s3_box3_doubao.Protocol.Constants.{
  msg_server_full_response, msg_server_ack, serial_none, compress_gzip,
}
use esp32s3_box3_doubao.Protocol.Platform.{Platform, allocates}
use esp32s3_box3_doubao.Protocol.Wire.Laws.{be32, nibbles}
use esp32s3_box3_doubao.Protocol.Response.{
  Response, cleared, session_id_size, parse_sequence, parse_event, parse_message, parse_response,
}
use esp32s3_box3_doubao.Protocol.Response.Encode.{
  Message, encode, payload_of, optional, flags_of, AllSome, with_sequence, with_event, fill,
  options_lem, parse_payload_lem, parse_session_id_lem, drop_session,
}

-- A message with a payload whose fields fit the layout, and whose session id fits the array.
pub record IsMessage (m : Message) : Type 0 where
  pub sequence_fits : AllSome IsU32 m.sequence
  pub event_fits : AllSome IsU32 m.event
  pub session_fits : length m.session < session_id_size
  pub size_fits : IsU32 m.size
  pub size_nonzero : m.size ≢ 0
  pub body_nonempty : 0 < length m.body
  pub payload_small : length (payload_of m) < 2 ^ 31

-- What the caller is to see of a message.
abbrev pub received : ℕ → ℕ → Message → Response
received kind serial m =
    record (with_event m.event
      (with_sequence m.sequence (record cleared { message_type = kind }))) {
        session_id = fill m.session;
        payload_size = m.size;
        is_binary = serial == serial_none;
        payload_data = some m.body;
        payload_data_len = length m.body;
      }

options_keep_session :
    (sequence event : Option ℕ) (resp : Response)
    → (with_event event (with_sequence sequence resp)).session_id ≡ resp.session_id
options_keep_session none none resp = refl
options_keep_session none (some v) resp = refl
options_keep_session (some u) none resp = refl
options_keep_session (some u) (some v) resp = refl

flags_of_small : (m : Message) → flags_of m < 16
flags_of_small m = ground arith

parse_message_lem :
    (P : Platform) (kind serial compression : ℕ) (m : Message)
    → IsMessage m
    → compression ≢ compress_gzip
    → allocates P (length m.body) ≡ true
    → parse_message P
        (flags_of m)
        serial
        compression
        (payload_of m)
        (record cleared { message_type = kind })
      ≡ ok (received kind serial m)
unfolding parse_message
parse_message_lem P kind serial compression m v plain room =
    sym (>>=_assoc (parse_sequence (flags_of m) p (resp, 0)) (parse_event (flags_of m) p) _)
    ∙ rw
        ((options_lem p small resp m.sequence m.event after_options v.sequence_fits v.event_fits
          refl).0)
        (unfold ◌>>=◌ in
          rw (
            parse_session_id_lem p small resp' offset m.session after_session (omega arith) blank
                at_session,
            parse_payload_lem p small P (record resp' { session_id = fill m.session }) serial
                compression next m.size m.body plain room v.size_fits v.size_nonzero v.body_nonempty
                at_payload,
          ))
  where
    p : List ℕ
    p = payload_of m

    small : length p < 2 ^ 31
    small = v.payload_small

    resp : Response
    resp = record cleared { message_type = kind }

    after_options : List ℕ
    after_options = be32 (length m.session) ++ (m.session ++ (be32 m.size ++ m.body))

    after_session : List ℕ
    after_session = be32 m.size ++ m.body

    resp' : Response
    resp' = with_event m.event (with_sequence m.sequence resp)

    offset : ℕ
    offset = length (optional m.sequence) + length (optional m.event)

    next : ℕ
    next = offset + 4 + length m.session

    blank : resp'.session_id ≡ replicate session_id_size 0
    blank = options_keep_session m.sequence m.event resp

    at_session : drop offset p ≡ after_options
    at_session =
        (options_lem p small resp m.sequence m.event after_options v.sequence_fits v.event_fits
          refl).1

    at_payload : drop next p ≡ after_session
    at_payload = drop_session p small offset m.session after_session (omega arith) at_session

-- The header is taken apart and the payload handed to `parse_message`.
parse_header_lem :
    (P : Platform) (kind flags serial compression : ℕ) (payload : List ℕ)
    → (kind ≡ msg_server_full_response) ⊎ (kind ≡ msg_server_ack)
    → flags < 16
    → serial < 16
    → compression < 16
    → parse_response P (0x11 ∷ nibbles kind flags ∷ nibbles serial compression ∷ 0 ∷ payload)
      ≡ parse_message P flags serial compression payload (record cleared { message_type = kind })
unfolding parse_response ◌>>=◌
parse_header_lem P kind flags serial compression payload k hf hs hc =
    rw (long, e1, e2, e3, e4, known)
  where
    long : ltb (length (0 ∷ 0 ∷ 0 ∷ 0 ∷ payload)) 4 ≡ false
    long = ground arith

    e1 : shr (nibbles kind flags) 4 ≡ kind
    e1 = omega arith

    e2 : bit_and (nibbles kind flags) 0x0F ≡ flags
    e2 = low_nibble (nibbles kind flags) ∙ omega arith

    e3 : shr (nibbles serial compression) 4 ≡ serial
    e3 = omega arith

    e4 : bit_and (nibbles serial compression) 0x0F ≡ compression
    e4 = low_nibble (nibbles serial compression) ∙ omega arith

    known : (kind == msg_server_full_response || kind == msg_server_ack) ≡ true
    known = ground arith

-- A full response or an acknowledgement that is not marked as gzip, of fewer than 2 ^ 31 bytes behind
-- its header, with fields of 32 bits, a session id of at most 127 bytes, a body that is not empty and
-- a size field that is not zero, is read back field by field if there is memory for the body: the
-- sequence number and the event where they are there, the session id, the size field, and as payload
-- all the bytes behind it, whatever the size field says.
pub parse_response-encode :
    (P : Platform) (kind serial compression : ℕ) (m : Message)
    → (kind ≡ msg_server_full_response) ⊎ (kind ≡ msg_server_ack)
    → serial < 16
    → compression < 16
    → compression ≢ compress_gzip
    → allocates P (length m.body) ≡ true
    → IsMessage m
    → parse_response P (encode kind serial compression m) ≡ ok (received kind serial m)
parse_response-encode P kind serial compression m k hs hc plain room v =
    parse_header_lem P kind (flags_of m) serial compression (payload_of m) k (flags_of_small m) hs
      hc
    ∙ parse_message_lem P kind serial compression m v plain room
