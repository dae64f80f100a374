-- ===== src/Protocol/Response/Encode.antt =====
-- The frames of the server, written from the layout of the protocol: header, optional sequence
-- number and event, session id behind its length, payload behind its size. `parse_response` reads
-- them back.
use esp32s3_box3_doubao.Common.{
  suc, append_assoc, slice_lem, store_lem, if◌then◌else◌, ℕ, ◌+◌, ◌-◌, ◌^◌, ◌≤◌, ◌<◌, ◌≡◌, ◌≢◌,
  refl, ap, ◌∙◌, true, false, ◌||◌, Option, none, some, List, [], ◌∷◌, ◌++◌, arith, ok, ◌>>=◌,
  length, drop, replicate, length-append, length-drop, drop-drop, drop-append, take-append, ltb,
  leb, ◌==◌, bit_and,
}
use esp32s3_box3_doubao.Common.Words.{IsU32, add_size}
use esp32s3_box3_doubao.Protocol.Constants.{
  flag_neg_sequence, flag_msg_with_event, serial_none, compress_gzip,
}
use esp32s3_box3_doubao.Protocol.Platform.{Platform, allocates}
use esp32s3_box3_doubao.Protocol.Wire.Laws.{be32, nibbles, read_u32_be-be32}
use esp32s3_box3_doubao.Protocol.Response.{
  Response, session_id_size, take_word, parse_sequence, parse_event, copy_session_id,
  parse_session_id, unpack, parse_payload,
}

pub record Message : Type 0 where
  pub sequence : Option ℕ
  pub event : Option ℕ
  pub session : List ℕ
  pub size : ℕ
  pub body : List ℕ

abbrev pub optional : Option ℕ → List ℕ
optional none = []
optional (some v) = be32 v

abbrev pub flag : Option ℕ → ℕ → ℕ
flag none bit = 0
flag (some _) bit = bit

abbrev pub flags_of : Message → ℕ
flags_of m = flag m.sequence flag_neg_sequence + flag m.event flag_msg_with_event

abbrev pub AllSome : (ℕ → Type 0) → Option ℕ → Type 0
AllSome P none = Unit
AllSome P (some v) = P v

abbrev pub with_sequence : Option ℕ → Response → Response
with_sequence none resp = resp
with_sequence (some v) resp = record resp { seq = v; has_seq = true }

abbrev pub with_event : Option ℕ → Response → Response
with_event none resp = resp
with_event (some v) resp = record resp { event = v; has_event = true }

abbrev pub payload_of : Message → List ℕ
payload_of m =
    optional m.sequence
    ++ (optional m.event ++ (be32 (length m.session) ++ (m.session ++ (be32 m.size ++ m.body))))

-- A message of the given kind on the wire.
abbrev pub encode : ℕ → ℕ → ℕ → Message → List ℕ
encode kind serial compression m =
    0x11 ∷ nibbles kind (flags_of m) ∷ nibbles serial compression ∷ 0 ∷ payload_of m

-- A short session id in its array.
abbrev pub fill : List ℕ → List ℕ
fill session = session ++ replicate (session_id_size - length session) 0

copied_id :
    (session : List ℕ)
    → length session ≤ session_id_size - 1
    → (session ++ (0 ∷ [])) ++ replicate (session_id_size - length (session ++ (0 ∷ []))) 0
      ≡ fill session
copied_id session h =
    let longer : length (session ++ (0 ∷ [])) ≡ length session + 1 =
      length-append session (0 ∷ []) in
    let left : session_id_size - length session ≡ suc (session_id_size - (length session + 1)) =
      omega arith in
    rw (longer, left)
      (append_assoc session (0 ∷ []) (replicate (session_id_size - (length session + 1)) 0))

-- A short session id that stands in the payload is copied whole.
copy_session_id_lem :
    (payload : List ℕ) (offset : ℕ) (session rest : List ℕ)
    → length session ≤ session_id_size - 1
    → drop offset payload ≡ session ++ rest
    → offset + length session ≤ length payload
    → copy_session_id payload offset (length session) ≡ ok (fill session)
unfolding copy_session_id ◌>>=◌
copy_session_id_lem payload offset session rest h at inside =
    let whole : (if ltb (length session) (session_id_size - 1)
          then length session
          else session_id_size - 1)
        ≡ length session =
      ground arith in
    rw
      (
        whole,
        slice_lem payload offset (length session) inside,
        at,
        take-append session rest,
        store_lem session_id_size session (0 ∷ []) (omega arith),
      )
      (ap ok (copied_id session h))

module _ (p : List ℕ) (small : length p < 2 ^ 31) where
  -- A number in the buffer is taken, and what stood behind it is left.
  take_word_lem :
      (i v : ℕ) (rest : List ℕ)
      → IsU32 v
      → drop i p ≡ be32 v ++ rest
      → (take_word p i ≡ ok (v, i + 4)) × (drop (i + 4) p ≡ rest)
  unfolding take_word ◌>>=◌
  take_word_lem i v rest h e = (
    rw (fits, read_u32_be-be32 p i v rest h e) (ap (λ k. ok (v, k)) next),
    drop-drop p i 4 (i + 4) refl ∙ ap (drop 4) e,
  )
    where
      inside : i + 4 ≤ length p
      inside = omega (arith, length-drop {0} i p, ap (length {0}) e)

      next : add_size i 4 ≡ i + 4
      next = omega (arith, inside)

      fits : ltb (length p) (add_size i 4) ≡ false
      fits = ground (arith, inside)

  parse_sequence_none :
      (flags : ℕ) (r : Response × ℕ) → bit_and flags 2 ≡ 0 → parse_sequence flags p r ≡ ok r
  unfolding parse_sequence
  parse_sequence_none flags r e = rw e

  parse_event_none :
      (flags : ℕ) (r : Response × ℕ) → bit_and flags 4 ≡ 0 → parse_event flags p r ≡ ok r
  unfolding parse_event
  parse_event_none flags r e = rw e

  parse_sequence_some :
      (resp : Response) (i flags v : ℕ) (rest : List ℕ)
      → bit_and flags 2 ≡ 2
      → IsU32 v
      → drop i p ≡ be32 v ++ rest
      → parse_sequence flags p (resp, i) ≡ ok (record resp { seq = v; has_seq = true }, i + 4)
  unfolding parse_sequence ◌>>=◌
  parse_sequence_some resp i flags v rest f h e = rw (f, (take_word_lem i v rest h e).0)

  parse_event_some :
      (resp : Response) (i flags v : ℕ) (rest : List ℕ)
      → bit_and flags 4 ≡ 4
      → IsU32 v
      → drop i p ≡ be32 v ++ rest
      → parse_event flags p (resp, i) ≡ ok (record resp { event = v; has_event = true }, i + 4)
  unfolding parse_event ◌>>=◌
  parse_event_some resp i flags v rest f h e = rw (f, (take_word_lem i v rest h e).0)

  -- The session id is copied and zero-filled.
  pub parse_session_id_lem :
      (resp : Response) (i : ℕ) (session rest : List ℕ)
      → length session ≤ session_id_size - 1
      → resp.session_id ≡ replicate session_id_size 0
      → drop i p ≡ be32 (length session) ++ (session ++ rest)
      → parse_session_id p (resp, i)
        ≡ ok (record resp { session_id = fill session }, i + 4 + length session)
  unfolding parse_session_id ◌>>=◌
  parse_session_id_lem resp i [] rest h z e =
      rw (take_word_lem i 0 rest (omega arith) e).0 (ground (arith, z))
  parse_session_id_lem resp i (x ∷ xs) rest h z e =
      rw
        (
          (take_word_lem i n (session ++ rest) (omega arith) e).0,
          positive,
          fits,
          copy_session_id_lem p (i + 4) session rest h at inside,
          next,
        )
        refl
    where
      session : List ℕ
      session = x ∷ xs

      n : ℕ
      n = length session

      positive : (n == 0 || leb (2 ^ 31) n) ≡ false
      positive = ground (arith, h)

      inside : i + 4 + n ≤ length p
      inside = omega (arith, length-drop {0} i p, ap (length {0}) e, length-append session rest)

      fits : ltb (length p) (add_size (i + 4) n) ≡ false
      fits = ground (arith, inside)

      next : add_size (i + 4) n ≡ i + 4 + n
      next = omega (arith, inside)

      at : drop (i + 4) p ≡ session ++ rest
      at = (take_word_lem i n (session ++ rest) (omega arith) e).1

  pub drop_session :
      (i : ℕ) (session rest : List ℕ)
      → length session ≤ session_id_size - 1
      → drop i p ≡ be32 (length session) ++ (session ++ rest)
      → drop (i + 4 + length session) p ≡ rest
  drop_session i session rest h e =
      drop-drop p (i + 4) (length session) (i + 4 + length session) refl
      ∙ ap (drop (length session))
          (take_word_lem i (length session) (session ++ rest) (omega arith) e).1
      ∙ drop-append session rest

  -- Where the payload is copied as it is, everything behind its size is handed on, whatever the
  -- size says.
  pub parse_payload_lem :
      (P : Platform) (resp : Response) (serial compression i size : ℕ) (body : List ℕ)
      → compression ≢ compress_gzip
      → allocates P (length body) ≡ true
      → IsU32 size
      → size ≢ 0
      → 0 < length body
      → drop i p ≡ be32 size ++ body
      → parse_payload P serial compression p (resp, i)
        ≡ ok (record resp {
          payload_size = size;
          is_binary = serial == serial_none;
          payload_data = some body;
          payload_data_len = length body;
        })
  unfolding parse_payload unpack ◌>>=◌
  parse_payload_lem P resp serial compression i size body plain room h nz nonempty e =
      rw ((take_word_lem i size body h e).0, (take_word_lem i size body h e).1, there, raw, room)
    where
      there : (length body == 0 || size == 0) ≡ false
      there = ground arith

      raw : (compression == compress_gzip) ≡ false
      raw = ground arith

  pub options_lem :
      (resp : Response) (sequence event : Option ℕ) (rest : List ℕ)
      → AllSome IsU32 sequence
      → AllSome IsU32 event
      → p ≡ optional sequence ++ (optional event ++ rest)
      → let flags = flag sequence 2 + flag event 4 in
        let offset = length (optional sequence) + length (optional event) in
        ((parse_sequence flags p (resp, 0) >>= parse_event flags p)
          ≡ ok (with_event event (with_sequence sequence resp), offset))
        × (drop offset p ≡ rest)
  unfolding ◌>>=◌
  options_lem resp none none rest hs he e =
      (rw (parse_sequence_none 0 (resp, 0) refl) (parse_event_none 0 (resp, 0) refl), e)
  options_lem resp none (some v) rest hs he e = (
    rw (parse_sequence_none 4 (resp, 0) refl) (parse_event_some resp 0 4 v rest refl he e),
    (take_word_lem 0 v rest he e).1,
  )
  options_lem resp (some u) none rest hs he e = (
    rw (parse_sequence_some resp 0 2 u rest refl hs e) (parse_event_none 2 _ refl),
    (take_word_lem 0 u rest hs e).1,
  )
  options_lem resp (some u) (some v) rest hs he e =
      let behind = (take_word_lem 0 u (be32 v ++ rest) hs e).1 in
      (
        rw (parse_sequence_some resp 0 6 u (be32 v ++ rest) refl hs e)
            (parse_event_some _ 4 6 v rest refl he behind),
        (take_word_lem 4 v rest he behind).1,
      )
