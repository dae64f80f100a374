-- ===== src/Device/Afe/Feed/Collected.antt =====
-- What the loop that collects the reference copies.
use esp32s3_box3_doubao.Common.{
  ℕ, zero, suc, ◌-◌, ◌≤◌, ◌<◌, ◌≡◌, refl, sym, ap, ◌∙◌, List, [], ◌∷◌, ◌++◌, length, length-append,
  length-take, length-drop, take, drop, ltb, ok, if◌then◌else◌, arith, Bool-cases, inl, inr,
  append_assoc, slice_lem, store_lem, ◌+◌, ◌>>=◌, append-nil, take_all,
}
use esp32s3_box3_doubao.Device.Ring.{Contiguous, HandsOut, ring_receive}
use esp32s3_box3_doubao.Device.Afe.Feed.{copy_item, collect}

take_none : (n : ℕ) → take {A = ℕ} n [] ≡ []
take_none zero = refl
take_none (suc n) = refl

take_split :
    (k n : ℕ) (xs : List ℕ)
    → k ≤ n
    → k ≤ length xs
    → take n xs ≡ take k xs ++ take (n - k) (drop k xs)
take_split zero n xs h l = ap (λ m. take m xs) (omega arith)
take_split (suc k) n [] h l = absurd (omega arith)
take_split (suc k) zero (x ∷ xs) h l = absurd (omega arith)
take_split (suc k) (suc n) (x ∷ xs) h l =
    ap (λ l. x ∷ l)
      (take_split k n xs (omega arith) (omega arith)
        ∙ ap (λ m. take k xs ++ take m (drop k xs)) (omega arith))

take-take_less : (j k : ℕ) (xs : List ℕ) → j ≤ k → take j (take k xs) ≡ take j xs
take-take_less zero k xs h = refl
take-take_less (suc j) zero xs h = absurd (omega arith)
take-take_less (suc j) (suc k) [] h = refl
take-take_less (suc j) (suc k) (x ∷ xs) h = ap (λ l. x ∷ l) (take-take_less j k xs (omega arith))

-- Copying the first bytes of an item, and then from what follows it, is copying from the queue; an
-- item that does not fit is cut, and then nothing more is copied.
abbrev part_copied : ℕ → List ℕ → List ℕ
part_copied room item = take (if ltb (length item) room then length item else room) item

collect_step :
    (n k : ℕ) (collected queued : List ℕ)
    → k ≤ length queued
    → length collected < n
    → let taken = part_copied (n - length collected) (take k queued) in
      ((collected ++ taken) ++ take (n - length (collected ++ taken)) (drop k queued)
        ≡ collected ++ take (n - length collected) queued)
      × (length (collected ++ taken) ≤ n)
collect_step n k collected queued within more =
    let room : ℕ = n - length collected in
    let whole : length (take k queued) ≡ k = omega (arith, length-take {0} k queued) in
    elim (Bool-cases (ltb (length (take k queued)) room)) [
      | inl fits ↦
          let same : take (length (take k queued)) (take k queued) ≡ take k queued =
            take_all (length (take k queued)) (take k queued) (omega arith) in
          let left : n - length (collected ++ take k queued) ≡ room - k =
            omega (arith, length-append collected (take k queued), whole) in
          rw (fits, same, left)
            (
              append_assoc collected (take k queued) (take (room - k) (drop k queued))
                  ∙ ap (λ l. collected ++ l) (sym (take_split k room queued (ground arith) within)),
              ground (arith, length-append collected (take k queued), whole),
            )
      | inr cut ↦
          let same : take room (take k queued) ≡ take room queued =
            take-take_less room k queued (ground arith) in
          let full : n - length (collected ++ take room queued) ≡ 0 =
            ground
              (arith, length-append collected (take room queued), length-take {0} room queued) in
          rw (cut, same, full)
            (
              append-nil (collected ++ take room queued),
              omega
                  (arith, length-append collected (take room queued), length-take {0} room queued),
            )
    ]

copy_item_lem :
    (n : ℕ) (collected item : List ℕ)
    → length collected < n
    → let room : ℕ = n - length collected in
      copy_item n collected item (if ltb (length item) room then length item else room)
      ≡ ok (collected ++ part_copied room item)
unfolding copy_item ◌>>=◌
copy_item_lem n collected item more =
    let room : ℕ = n - length collected in
    let to_copy : ℕ = if ltb (length item) room then length item else room in
    let there : 0 + to_copy ≤ length item = ground arith in
    let fits : length collected + length (take to_copy item) ≤ n =
      ground (arith, length-take {0} to_copy item) in
    rw (slice_lem item 0 to_copy there, store_lem n collected (take to_copy item) fits) refl

-- What has been collected, whatever the parts in which the bytes come.
pub collect_lem :
    (fuel : ℕ) (part : Contiguous) (n : ℕ) (collected queued : List ℕ)
    → HandsOut part
    → length collected ≤ n
    → length queued < fuel
    → (rest : List ℕ) × (collect fuel part n collected queued
        ≡ ok (collected ++ take (n - length collected) queued, rest))
unfolding collect ring_receive ◌>>=◌
collect_lem zero part n collected queued hands few enough = absurd (omega arith)
collect_lem (suc fuel) part n collected [] hands few enough =
    ([], ground (arith, take_none (n - length collected), append-nil collected))
collect_lem (suc fuel) part n collected (b ∷ bs) hands few enough =
    elim (Bool-cases (ltb (length collected) n)) [
      | inl more ↦
          let queued : List ℕ = b ∷ bs in
          let k : ℕ = part queued in
          let (some_part, within) = hands queued (omega arith) in
          let (same, few') = collect_step n k collected queued within (ground arith) in
          let (rest, e) =
            collect_lem fuel part n
              (collected ++ part_copied (n - length collected) (take k queued)) (drop k queued)
              hands few' (omega (arith, length-drop {0} k queued)) in
          (
            rest,
            rw (more, copy_item_lem n collected (take k queued) (ground arith), e)
                (ap (λ c. ok (c, rest)) same),
          )
      | inr full ↦
          let no_room : n - length collected ≡ 0 = ground arith in
          (b ∷ bs, rw (full, no_room, append-nil collected) refl)
    ]
