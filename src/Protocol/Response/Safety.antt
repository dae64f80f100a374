-- ===== src/Protocol/Response/Safety.antt =====
-- `protocol_parse_response` never reads outside the message.
use esp32s3_box3_doubao.Common.{
  ℕ, ◌+◌, ◌*◌, ◌^◌, ◌≤◌, ◌<◌, ◌≢◌, ◌||◌, List, arith, Exec, fault, length, drop, bit_and,
  length-drop, length-take, ◌-◌, [], ◌∷◌, if◌then◌else◌, Ensures-slice, Ensures-store, Ensures-map,
  ltb, leb, ◌==◌, Ensures, Ensures-bind, Ensures-fail_if, Ensures-if, returns, fails, Ensures-read,
  Ensures-ne-fault,
}
use esp32s3_box3_doubao.Common.Words.{add_size, shr}
use esp32s3_box3_doubao.Protocol.Constants.{
  msg_server_full_response, msg_server_ack, msg_server_error, flag_neg_sequence,
  flag_msg_with_event, compress_gzip,
}
use esp32s3_box3_doubao.Protocol.Platform.{Platform}
use esp32s3_box3_doubao.Protocol.Gzip.{gzip_decompress}
use esp32s3_box3_doubao.Protocol.Gzip.Safety.{gzip_decompress-safe}
use esp32s3_box3_doubao.Protocol.Wire.{read_u32_be}
use esp32s3_box3_doubao.Protocol.Response.{
  Response, take_word, parse_sequence, parse_event, session_id_size, copy_session_id,
  parse_session_id, parse_payload, parse_message, parse_error, parse_response, unpack, error_detail,
  or_empty,
}

pub read_u32_be-safe :
    (p : List ℕ) (i : ℕ) → i + 4 ≤ length p → Ensures (λ _. Unit {0}) (read_u32_be p i)
unfolding read_u32_be
read_u32_be-safe p i h = Ensures-bind (Ensures-read p i (omega arith)) λ _ _.
    Ensures-bind (Ensures-read p (i + 1) (omega arith)) λ _ _.
      Ensures-bind (Ensures-read p (i + 2) (omega arith))
        λ _ _. Ensures-bind (Ensures-read p (i + 3) (omega arith)) λ _ _. returns _ tt

-- The offset of a parser's state lies in the buffer.
abbrev pub Inside : {A : Type 0} → List ℕ → A × ℕ → Type 0
Inside p r = r.1 ≤ length p

module _ (p : List ℕ) (small : length p < 2 ^ 31) where
  -- What `take_word` checks is what it reads, and the next offset is inside the buffer.
  pub take_word-safe : (i : ℕ) → i ≤ length p → Ensures (Inside p) (take_word p i)
  unfolding take_word
  take_word-safe i h =
      Ensures-bind (Ensures-fail_if (ltb (length p) (add_size i 4)))
        λ _ e. Ensures-bind (read_u32_be-safe p i (ground arith)) λ v _. returns _ (ground arith)

  pub parse_sequence-safe :
      (flags : ℕ) (r : Response × ℕ) → Inside p r → Ensures (Inside p) (parse_sequence flags p r)
  unfolding parse_sequence
  parse_sequence-safe flags (resp, i) h =
      Ensures-if (bit_and flags flag_neg_sequence == 0) (λ _. returns _ h)
        (λ _. Ensures-bind (take_word-safe i h) λ r inside. returns _ inside)

  pub parse_event-safe :
      (flags : ℕ) (r : Response × ℕ) → Inside p r → Ensures (Inside p) (parse_event flags p r)
  unfolding parse_event
  parse_event-safe flags (resp, i) h =
      Ensures-if (bit_and flags flag_msg_with_event == 0) (λ _. returns _ h)
        (λ _. Ensures-bind (take_word-safe i h) λ r inside. returns _ inside)

  -- The copy reads within the bytes whose number has been checked, and writes within the array.
  copy_session_id-safe :
      (offset sid_len : ℕ)
      → offset + sid_len ≤ length p
      → Ensures (λ _. Unit {0}) (copy_session_id p offset sid_len)
  unfolding copy_session_id
  copy_session_id-safe offset sid_len h =
      let copy_len : ℕ =
        if ltb sid_len (session_id_size - 1) then sid_len else session_id_size - 1 in
      let inside : offset + copy_len ≤ length p = ground arith in
      let short : copy_len ≤ session_id_size - 1 = ground arith in
      Ensures-bind (Ensures-slice p offset copy_len inside) λ copied e.
        let size : length copied ≤ session_id_size - 1 =
          rw e (omega (arith, length-take {0} copy_len (drop offset p))) in
        Ensures-bind (Ensures-store session_id_size copied (0 ∷ []) (omega arith))
          λ written _. returns _ tt

  pub parse_session_id-safe :
      (r : Response × ℕ) → Inside p r → Ensures (Inside p) (parse_session_id p r)
  unfolding parse_session_id
  parse_session_id-safe (resp, i) h = Ensures-bind (take_word-safe i h) λ r inside.
      Ensures-if (r.0 == 0 || leb (2 ^ 31) r.0) (λ _. returns _ inside)
        (λ positive. Ensures-bind (Ensures-fail_if (ltb (length p) (add_size r.1 r.0))) λ _ e.
          let fits : add_size r.1 r.0 ≤ length p = ground arith in
          let whole : r.1 + r.0 ≤ length p = ground arith in
          Ensures-bind (copy_session_id-safe r.1 r.0 whole) λ _ _. returns _ fits)

inflated :
    (P : Platform) (msg_data : List ℕ)
    → length msg_data < 2 ^ 31
    → Ensures (λ _. Unit {0}) (gzip_decompress P msg_data)
inflated P msg_data small = Ensures-map (λ _ _. tt) (gzip_decompress-safe P msg_data small)

unpack-safe :
    (P : Platform) (compression : ℕ) (msg_data : List ℕ)
    → length msg_data < 2 ^ 31
    → Ensures (λ _. Unit {0}) (unpack P compression msg_data)
unfolding unpack
unpack-safe P compression msg_data small =
    Ensures-if (compression == compress_gzip) (λ _. inflated P msg_data small)
      (λ _. Ensures-bind (Ensures-fail_if _) λ _ _. returns _ tt)

-- The caller looks at the result of `gzip_decompress` instead of giving up.
handled : {m : Exec (List ℕ)} → Ensures (λ _. Unit {0}) m → Ensures (λ _. Unit {0}) (or_empty m)
unfolding or_empty
handled (returns out _) = returns _ tt
handled fails = returns _ tt

error_detail-safe :
    (P : Platform) (compression : ℕ) (msg_data : List ℕ)
    → length msg_data < 2 ^ 31
    → Ensures (λ _. Unit {0}) (error_detail P compression msg_data)
unfolding error_detail
error_detail-safe P compression msg_data small =
    Ensures-if (compression == compress_gzip) (λ _. handled (inflated P msg_data small))
      (λ _. returns _ tt)

module _ (P : Platform) (p : List ℕ) (small : length p < 2 ^ 31) where
  parse_payload-safe :
      (serial compression : ℕ) (r : Response × ℕ)
      → Inside p r
      → Ensures (λ _. Unit {0}) (parse_payload P serial compression p r)
  unfolding parse_payload
  parse_payload-safe serial compression (resp, i) h =
      Ensures-bind (take_word-safe p small i h) λ r inside.
        Ensures-if (length (drop r.1 p) == 0 || r.0 == 0) (λ _. returns _ tt)
          (λ _.
            Ensures-bind
              (unpack-safe P compression (drop r.1 p) (omega (arith, length-drop {0} r.1 p)))
              λ out _. returns _ tt)

  parse_message-safe :
      (flags serial compression : ℕ) (resp : Response)
      → Ensures (λ _. Unit {0}) (parse_message P flags serial compression p resp)
  unfolding parse_message
  parse_message-safe flags serial compression resp =
      Ensures-bind (parse_sequence-safe p small flags (resp, 0) (omega arith)) λ r1 h1.
        Ensures-bind (parse_event-safe p small flags r1 h1) λ r2 h2.
          Ensures-bind (parse_session_id-safe p small r2 h2)
            λ r3 h3. parse_payload-safe serial compression r3 h3

  parse_error-safe :
      (compression : ℕ) (resp : Response)
      → Ensures (λ _. Unit {0}) (parse_error P compression p resp)
  unfolding parse_error
  parse_error-safe compression resp = Ensures-bind (Ensures-fail_if (ltb (length p) 8)) λ _ e.
      Ensures-bind (read_u32_be-safe p 0 (ground arith)) λ code _.
        Ensures-bind (read_u32_be-safe p 4 (ground arith)) λ size _.
          Ensures-if (length (drop 8 p) == 0) (λ _. returns _ tt)
            (λ _.
              Ensures-bind
                (error_detail-safe P compression (drop 8 p) (omega (arith, length-drop {0} 8 p)))
                λ d _. returns _ tt)

pub parse_response-safe :
    (P : Platform) (bytes : List ℕ)
    → length bytes < 2 ^ 31
    → Ensures (λ _. Unit {0}) (parse_response P bytes)
unfolding parse_response
parse_response-safe P bytes small = Ensures-bind (Ensures-fail_if (ltb (length bytes) 4)) λ _ e.
    let long : 4 ≤ length bytes = ground arith in
    Ensures-bind (Ensures-read bytes 0 (omega arith)) λ b0 _.
      Ensures-bind (Ensures-read bytes 1 (omega arith)) λ b1 _.
        Ensures-bind (Ensures-read bytes 2 (omega arith)) λ b2 _.
          Ensures-bind (Ensures-fail_if (ltb (length bytes) (bit_and b0 0x0F * 4))) λ _ _.
            let payload_small : length (drop (bit_and b0 0x0F * 4) bytes) < 2 ^ 31 =
              omega (arith, length-drop {0} (bit_and b0 0x0F * 4) bytes) in
            Ensures-if (shr b1 4 == msg_server_full_response || shr b1 4 == msg_server_ack)
              (λ _. parse_message-safe P _ payload_small _ _ _ _)
              (λ _.
                Ensures-if (shr b1 4 == msg_server_error)
                  (λ _. parse_error-safe P _ payload_small _ _) (λ _. returns _ tt))

-- Whatever the server sends in fewer than 2 ^ 31 bytes, the parser never reads outside the message:
-- not for a number, not for the session id that it copies, which stays inside its array as well, and
-- not for the range that is inflated.
pub parse_response-ne-fault :
    (P : Platform) (bytes : List ℕ) → length bytes < 2 ^ 31 → parse_response P bytes ≢ fault
parse_response-ne-fault P bytes small = Ensures-ne-fault (parse_response-safe P bytes small)
