-- ===== src/Desktop/Response/Agreement.antt =====
-- The desktop's parser and the device's give the same answer.
use esp32s3_box3_doubao.Common.{
  ℕ, ◌*◌, ◌^◌, ◌≤◌, ◌<◌, ◌≡◌, refl, Bool, true, false, ◌||◌, List, arith, length, drop, length-drop,
  ltb, leb, ◌==◌, if◌then◌else◌, bit_and, Ensures-fail_if, Ensures-read, Ensures-read_at, get_elem?,
  some, >>=_agree,
}
use esp32s3_box3_doubao.Common.Words.{add_size, add_size64, shr}
use esp32s3_box3_doubao.Protocol.Constants.{
  compress_gzip, serial_none, flag_neg_sequence, flag_msg_with_event, msg_server_full_response,
  msg_server_ack, msg_server_error,
}
use esp32s3_box3_doubao.Protocol.Platform.{Platform, allocates}
use esp32s3_box3_doubao.Protocol.Response
use esp32s3_box3_doubao.Protocol.Response.{Response, or_empty}
use esp32s3_box3_doubao.Protocol.Response.Safety.{
  Inside, read_u32_be-safe, take_word-safe, parse_sequence-safe, parse_event-safe,
  parse_session_id-safe,
}
use esp32s3_box3_doubao.Desktop.Host.{Host}
use esp32s3_box3_doubao.Desktop.Response.{
  take_word, parse_sequence, parse_event, parse_session_id, is_binary_of, unpack, parse_payload,
  parse_message, error_detail, parse_error, parse_response,
}

either_way {ℓ} :
    {A : Type ℓ} (b : Bool) {m m' n n' : A}
    → (b ≡ true → m ≡ m')
    → (b ≡ false → n ≡ n')
    → (if b then m else n) ≡ (if b then m' else n')
either_way true h k = h refl
either_way false h k = k refl

-- Where a message has fewer than 2 ^ 31 bytes, the widths of `size_t` make no difference.
module _ (p : List ℕ) (small : length p < 2 ^ 31) where
  take_word-agrees : (i : ℕ) → i ≤ length p → take_word p i ≡ Response.take_word p i
  unfolding take_word Response.take_word
  take_word-agrees i h = let same : add_size64 i 4 ≡ add_size i 4 = omega arith in rw same refl

  parse_sequence-agrees :
      (flags : ℕ) (r : Response × ℕ)
      → Inside p r
      → parse_sequence flags p r ≡ Response.parse_sequence flags p r
  unfolding parse_sequence Response.parse_sequence
  parse_sequence-agrees flags (resp, i) h =
      either_way (bit_and flags flag_neg_sequence == 0) (λ _. refl)
        (λ _. >>=_agree (take_word-agrees i h) (take_word-safe p small i h) λ r inside. refl)

  parse_event-agrees :
      (flags : ℕ) (r : Response × ℕ)
      → Inside p r
      → parse_event flags p r ≡ Response.parse_event flags p r
  unfolding parse_event Response.parse_event
  parse_event-agrees flags (resp, i) h =
      either_way (bit_and flags flag_msg_with_event == 0) (λ _. refl)
        (λ _. >>=_agree (take_word-agrees i h) (take_word-safe p small i h) λ r inside. refl)

  parse_session_id-agrees :
      (r : Response × ℕ) → Inside p r → parse_session_id p r ≡ Response.parse_session_id p r
  unfolding parse_session_id Response.parse_session_id
  parse_session_id-agrees (resp, i) h =
      >>=_agree (take_word-agrees i h) (take_word-safe p small i h) λ r inside.
        either_way (r.0 == 0 || leb (2 ^ 31) r.0) (λ _. refl)
          λ positive.
            let same : add_size64 r.1 r.0 ≡ add_size r.1 r.0 = ground arith in rw same refl

module _ (H : Host) (fuel : ℕ) (P : Platform) (memory : (n : ℕ) → H.malloc n ≡ true)
    (device_memory : (n : ℕ) → P.malloc n ≡ true) where
  is_binary_of_lem : (serial : ℕ) → is_binary_of serial ≡ (serial == serial_none)
  is_binary_of_lem serial = ground arith

  device_allocates : (n : ℕ) → allocates P n ≡ true
  device_allocates n = ground (arith, device_memory n)

  unpack-agrees :
      (compression : ℕ) (msg_data : List ℕ)
      → (compression == compress_gzip) ≡ false
      → unpack H fuel compression msg_data ≡ Response.unpack P compression msg_data
  unfolding unpack Response.unpack
  unpack-agrees compression msg_data plain =
      rw (plain, memory (length msg_data), device_allocates (length msg_data)) refl

  error_detail-agrees :
      (compression : ℕ) (msg_data : List ℕ)
      → (compression == compress_gzip) ≡ false
      → error_detail H fuel compression msg_data ≡ Response.error_detail P compression msg_data
  unfolding error_detail Response.error_detail
  error_detail-agrees compression msg_data plain =
      rw (plain, memory (length msg_data), device_memory (length msg_data)) refl

  module _ (p : List ℕ) (small : length p < 2 ^ 31) (compression : ℕ)
      (plain : (compression == compress_gzip) ≡ false) where
    parse_payload-agrees :
        (serial : ℕ) (r : Response × ℕ)
        → Inside p r
        → parse_payload H fuel serial compression p r
          ≡ Response.parse_payload P serial compression p r
    unfolding parse_payload Response.parse_payload
    parse_payload-agrees serial (resp, i) h =
        >>=_agree (take_word-agrees p small i h) (take_word-safe p small i h) λ r inside.
          either_way (length (drop r.1 p) == 0 || r.0 == 0) (λ _. refl)
            λ more. rw (unpack-agrees compression (drop r.1 p) plain, is_binary_of_lem serial) refl

    parse_message-agrees :
        (flags serial : ℕ) (resp : Response)
        → parse_message H fuel flags serial compression p resp
          ≡ Response.parse_message P flags serial compression p resp
    unfolding parse_message Response.parse_message
    parse_message-agrees flags serial resp =
        >>=_agree (parse_sequence-agrees p small flags (resp, 0) (omega arith))
          (parse_sequence-safe p small flags (resp, 0) (omega arith))
          λ r1 h1.
            >>=_agree (parse_event-agrees p small flags r1 h1)
              (parse_event-safe p small flags r1 h1)
              λ r2 h2.
                >>=_agree (parse_session_id-agrees p small r2 h2)
                  (parse_session_id-safe p small r2 h2) λ r3 h3. parse_payload-agrees serial r3 h3

    parse_error-agrees :
        (resp : Response)
        → parse_error H fuel compression p resp ≡ Response.parse_error P compression p resp
    unfolding parse_error Response.parse_error
    parse_error-agrees resp = >>=_agree refl (Ensures-fail_if (ltb (length p) 8)) λ _ long.
        >>=_agree refl (read_u32_be-safe p 0 (ground arith)) λ code _.
          >>=_agree refl (read_u32_be-safe p 4 (ground arith)) λ size _.
            either_way (length (drop 8 p) == 0) (λ _. refl)
              λ more. rw (error_detail-agrees compression (drop 8 p) plain) refl

  -- The header does not name gzip.
  abbrev pub IsPlain : List ℕ → Type 0
  IsPlain bytes =
      (b2 : ℕ) → get_elem? bytes 2 ≡ some b2 → (bit_and b2 0x0F == compress_gzip) ≡ false

  -- The desktop client and the device, if memory is not short, read every message of fewer than
  -- 2 ^ 31 bytes whose header does not name gzip alike, whatever else is in it: they accept the same
  -- ones, with the same result, and refuse the same ones.
  pub parse_response-agrees :
      (bytes : List ℕ)
      → length bytes < 2 ^ 31
      → IsPlain bytes
      → parse_response H fuel bytes ≡ Response.parse_response P bytes
  unfolding parse_response Response.parse_response
  parse_response-agrees bytes small plain =
      >>=_agree refl (Ensures-fail_if (ltb (length bytes) 4)) λ _ e.
        let long : 4 ≤ length bytes = ground arith in
        >>=_agree refl (Ensures-read bytes 0 (omega arith)) λ b0 _.
          >>=_agree refl (Ensures-read bytes 1 (omega arith)) λ b1 _.
            >>=_agree refl (Ensures-read_at bytes 2 (omega arith)) λ b2 at.
              >>=_agree refl (Ensures-fail_if (ltb (length bytes) (bit_and b0 0x0F * 4))) λ _ _.
                let p : List ℕ = drop (bit_and b0 0x0F * 4) bytes in
                let fewer : length p < 2 ^ 31 =
                  omega (arith, length-drop {0} (bit_and b0 0x0F * 4) bytes) in
                either_way (shr b1 4 == msg_server_full_response || shr b1 4 == msg_server_ack)
                  (λ _. parse_message-agrees p fewer (bit_and b2 0x0F) (plain b2 at) _ _ _)
                  λ _.
                    either_way (shr b1 4 == msg_server_error)
                      (λ _. parse_error-agrees p fewer (bit_and b2 0x0F) (plain b2 at) _)
                      (λ _. refl)
