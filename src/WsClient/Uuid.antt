-- ===== src/WsClient/Uuid.antt =====
-- `generate_uuid` of main/doubao_ws_client.c.
use esp32s3_box3_doubao.Common.{
  ℕ, zero, suc, ◌-◌, ◌%◌, ◌≤◌, ◌≡◌, refl, Bool, true, false, List, [], ◌∷◌, ◌++◌, arith, length,
  length-append, ◌<◌, ◌^◌, ◌∙◌, sym, ap, ◌==◌, ◌||◌, ltb, get_or, if◌then◌else◌, take, replicate,
  append-nil, append_assoc,
}
use esp32s3_box3_doubao.Common.Text.{utf8}

abbrev hex : List ℕ
hex = utf8 "0123456789abcdef"

-- The inner loop over a group, with `esp_random()` as the number that is drawn for a position.
fill_group : (ℕ → ℕ) → ℕ → ℕ → List ℕ → List ℕ
fill_group random len zero out = out
fill_group random len (suc left) out =
    let more = fill_group random len left (out ++ (get_or hex (random (length out) % 16) 0 ∷ [])) in
    if ltb (length out) (len - 1) then more else out

separate : ℕ → Bool → List ℕ → List ℕ
separate len first out =
    if first then out else if ltb (length out) (len - 1) then out ++ (b'-' ∷ []) else out

fill_groups : (ℕ → ℕ) → ℕ → Bool → List ℕ → List ℕ → List ℕ
fill_groups random len first [] out = out
fill_groups random len first (n ∷ groups) out =
    fill_groups random len false groups (fill_group random len n (separate len first out))

-- The text in a buffer of `len` bytes, in front of the terminating zero.
unfoldable pub generate_uuid : (ℕ → ℕ) → ℕ → List ℕ
unfolding fill_group separate fill_groups
generate_uuid random len = fill_groups random len true (8 ∷ 4 ∷ 4 ∷ 4 ∷ 12 ∷ []) []

-- The group lengths as one sequence of positions: a digit at `true`, a dash at `false`.
abbrev marks : List ℕ → List Bool
marks [] = []
marks (n ∷ groups) = false ∷ replicate n true ++ marks groups

abbrev pattern : List Bool
pattern = replicate 8 true ++ marks (4 ∷ 4 ∷ 4 ∷ 12 ∷ [])

abbrev character : (ℕ → ℕ) → ℕ → Bool → ℕ
character random pos digit = if digit then get_or hex (random pos % 16) 0 else b'-'

text : (ℕ → ℕ) → ℕ → List Bool → List ℕ
text random pos [] = []
text random pos (m ∷ ms) = character random pos m ∷ text random (suc pos) ms

puts : (ℕ → ℕ) → ℕ → List Bool → List ℕ → List ℕ
puts random len [] out = out
puts random len (m ∷ ms) out =
    let more = puts random len ms (out ++ (character random (length out) m ∷ [])) in
    if ltb (length out) (len - 1) then more else out

puts_full :
    (random : ℕ → ℕ) (len : ℕ) (ms : List Bool) (out : List ℕ)
    → ltb (length out) (len - 1) ≡ false
    → puts random len ms out ≡ out
unfolding puts
puts_full random len [] out e = refl
puts_full random len (m ∷ ms) out e = rw e refl

puts-append :
    (random : ℕ → ℕ) (len : ℕ) (ms ns : List Bool) (out : List ℕ)
    → puts random len (ms ++ ns) out ≡ puts random len ns (puts random len ms out)
unfolding puts
puts-append random len [] ns out = refl
puts-append random len (m ∷ ms) ns out = ground (
  arith,
  puts-append random len ms ns (out ++ (character random (length out) m ∷ [])),
  puts_full random len ns out,
)

fill_group-puts :
    (random : ℕ → ℕ) (len n : ℕ) (out : List ℕ)
    → fill_group random len n out ≡ puts random len (replicate n true) out
unfolding fill_group puts
fill_group-puts random len zero out = refl
fill_group-puts random len (suc n) out =
    rw (fill_group-puts random len n (out ++ (character random (length out) true ∷ []))) refl

separate-puts :
    (random : ℕ → ℕ) (len : ℕ) (out : List ℕ)
    → separate len false out ≡ puts random len (false ∷ []) out
unfolding separate puts
separate-puts random len out = refl

take_nil : (n : ℕ) → take {A = ℕ} n [] ≡ []
take_nil zero = refl
take_nil (suc n) = refl

take_room :
    (room c : ℕ) (out xs : List ℕ)
    → length out < room
    → (out ++ (c ∷ [])) ++ take (room - length (out ++ (c ∷ []))) xs
      ≡ out ++ take (room - length out) (c ∷ xs)
take_room room c out xs h =
    let e : room - length out ≡ suc (room - length (out ++ (c ∷ []))) =
      ground (arith, length-append out (c ∷ [])) in
    rw (e, append_assoc out (c ∷ []) (take (room - length (out ++ (c ∷ []))) xs)) refl

take_full :
    (room : ℕ) (out xs : List ℕ) → room ≤ length out → out ≡ out ++ take (room - length out) xs
take_full room out xs h = let e : room - length out ≡ 0 = omega arith in rw (e, append-nil out) refl

text-length :
    (random : ℕ → ℕ) (ms : List Bool) (out : List ℕ) (c : ℕ)
    → text random (length (out ++ (c ∷ []))) ms ≡ text random (suc (length out)) ms
text-length random ms out c =
    let e : length (out ++ (c ∷ [])) ≡ suc (length out) =
      ground (arith, length-append out (c ∷ [])) in
    ap (λ n. text random n ms) e

-- What is put is cut at the end of the buffer.
puts-take :
    (random : ℕ → ℕ) (len : ℕ) (ms : List Bool) (out : List ℕ)
    → puts random len ms out ≡ out ++ take (len - 1 - length out) (text random (length out) ms)
unfolding puts text
puts-take random len [] out = rw (take_nil (len - 1 - length out), append-nil out) refl
puts-take random len (m ∷ ms) out =
    let c : ℕ = character random (length out) m in
    ground (
      arith,
      puts-take random len ms (out ++ (c ∷ [])),
      text-length random ms out c,
      take_room (len - 1) c out (text random (suc (length out)) ms),
      take_full (len - 1) out (text random (length out) (m ∷ ms)),
    )

fill_groups-marks :
    (random : ℕ → ℕ) (len : ℕ) (groups out : List ℕ)
    → fill_groups random len false groups out ≡ puts random len (marks groups) out
unfolding fill_groups puts
fill_groups-marks random len [] out = refl
fill_groups-marks random len (n ∷ groups) out =
    fill_groups-marks random len groups (fill_group random len n (separate len false out))
    ∙ ap (puts random len (marks groups)) (
        fill_group-puts random len n (separate len false out)
        ∙ ap (puts random len (replicate n true)) (separate-puts random len out))
    ∙ sym (
        puts-append random len (replicate n true) (marks groups) (puts random len (false ∷ []) out))
    ∙ sym (puts-append random len (false ∷ []) (replicate n true ++ marks groups) out)

fill_groups-puts :
    (random : ℕ → ℕ) (len : ℕ)
    → fill_groups random len true (8 ∷ 4 ∷ 4 ∷ 4 ∷ 12 ∷ []) [] ≡ puts random len pattern []
unfolding fill_groups separate
fill_groups-puts random len =
    let later : List ℕ = 4 ∷ 4 ∷ 4 ∷ 12 ∷ [] in
    fill_groups-marks random len later (fill_group random len 8 [])
    ∙ ap (puts random len (marks later)) (fill_group-puts random len 8 [])
    ∙ sym (puts-append random len (replicate 8 true) (marks later) [])

-- The character of an identifier at a position: a dash at 8, 13, 18 and 23, and elsewhere the
-- hexadecimal digit of the number that is drawn for the position.
abbrev pub uuid_character : (ℕ → ℕ) → ℕ → ℕ
uuid_character random i =
    if i == 8 || i == 13 || i == 18 || i == 23
    then b'-'
    else get_or (utf8 "0123456789abcdef") (random i % 16) 0

abbrev uuid_from : (ℕ → ℕ) → ℕ → ℕ → List ℕ
uuid_from random i zero = []
uuid_from random i (suc n) = uuid_character random i ∷ uuid_from random (suc i) n

-- The 36 characters of a whole identifier.
abbrev pub uuid_text : (ℕ → ℕ) → List ℕ
uuid_text random = uuid_from random 0 36

pattern_lem : (random : ℕ → ℕ) → text random 0 pattern ≡ uuid_text random
unfolding text
pattern_lem random = refl

-- In a buffer of `len` bytes, one or more and fewer than 2 ^ 31, `generate_uuid` writes the first
-- `len - 1` characters of an identifier, which is all of its 36 when the buffer has 37 bytes or more:
-- dashes at the positions 8, 13, 18 and 23, and at each other position the hexadecimal digit of the
-- number that is drawn for it.
pub generate_uuid_cuts :
    (random : ℕ → ℕ) (len : ℕ)
    → 0 < len
    → len < 2 ^ 31
    → generate_uuid random len ≡ take (len - 1) (uuid_text random)
unfolding generate_uuid
generate_uuid_cuts random len some_room fits =
    let e : len - 1 - 0 ≡ len - 1 = omega arith in
    fill_groups-puts random len
    ∙ puts-take random len pattern []
    ∙ ap (λ n. take n (text random 0 pattern)) e
    ∙ ap (take (len - 1)) (pattern_lem random)
