-- ===== src/Device/Afe/Feed/Interleaved.antt =====
-- What the front end is fed.
use esp32s3_box3_doubao.Common.{
  ltb, true, ℕ, zero, suc, ◌+◌, ◌-◌, ◌*◌, ◌/◌, ◌≤◌, ◌<◌, ◌≡◌, refl, Option, none, some, List, [],
  ◌∷◌, length, length-append, length-take, length-replicate, take, replicate, get_or, read, ok,
  ◌>>=◌, arith,
}
use esp32s3_box3_doubao.Device.Ring.{Contiguous, HandsOut}
use esp32s3_box3_doubao.Device.Afe.Feed.{
  total_ch, zero_filled, sample, slot, interleave, feed_round,
}
use esp32s3_box3_doubao.Device.Afe.Feed.Collected.{collect_lem}

abbrev sample_of : List ℕ → ℕ → ℕ
sample_of bytes i = get_or bytes (i * 2) 0 + 256 * get_or bytes (i * 2 + 1) 0

abbrev pub frames : ℕ → ℕ → List ℕ → List ℕ → List ℕ
frames zero i mic ref = []
frames (suc left) i mic ref =
    get_or mic (i * 2) 0 ∷ get_or mic (i * 2 + 1) 0 ∷ sample_of ref i ∷ frames left (i + 1) mic ref

read_lem : (bytes : List ℕ) (i : ℕ) → i < length bytes → read bytes i ≡ ok (get_or bytes i 0)
read_lem [] i h = absurd (omega arith)
read_lem (x ∷ xs) zero h = refl
read_lem (x ∷ xs) (suc i) h = read_lem xs i (omega arith)

sample_lem :
    (bytes : List ℕ) (i : ℕ) → i * 2 + 1 < length bytes → sample bytes i ≡ ok (sample_of bytes i)
unfolding sample ◌>>=◌
sample_lem bytes i h = rw (read_lem bytes (i * 2) (omega arith), read_lem bytes (i * 2 + 1) h) refl

slot_lem : (size k : ℕ) → k < size → slot size k ≡ ok tt
unfolding slot
slot_lem size k h = let inside : ltb k size ≡ true = ground arith in rw inside refl

-- Every access is inside its buffer.
interleave_lem :
    (left i size : ℕ) (mic ref : List ℕ)
    → (i + left) * 2 ≤ length mic
    → (i + left) * 2 ≤ length ref
    → (i + left) * 3 ≤ size
    → interleave left i size mic ref ≡ ok (frames left i mic ref)
unfolding interleave ◌>>=◌
interleave_lem zero i size mic ref m r f = refl
interleave_lem (suc left) i size mic ref m r f =
    let first : i * 2 + 0 ≡ i * 2 = omega arith in
    rw
      (
        first,
        read_lem mic (i * 2) (omega arith),
        read_lem mic (i * 2 + 1) (omega arith),
        sample_lem ref i (omega arith),
        slot_lem size (i * 3 + 0) (omega arith),
        slot_lem size (i * 3 + 1) (omega arith),
        slot_lem size (i * 3 + 2) (omega arith),
        interleave_lem left (i + 1) size mic ref (omega arith) (omega arith) (omega arith),
      )
      refl

-- The sample of each channel stands at its place, and there are no others.
pub record Feeds (n : ℕ) (mic ref feed_buf : List ℕ) : Type 0 where
  pub total : length feed_buf ≡ n * total_ch
  pub mic1 : (i : ℕ) → i < n → get_or feed_buf (i * 3) 0 ≡ get_or mic (i * 2) 0
  pub mic2 : (i : ℕ) → i < n → get_or feed_buf (i * 3 + 1) 0 ≡ get_or mic (i * 2 + 1) 0
  pub reference : (i : ℕ) → i < n → get_or feed_buf (i * 3 + 2) 0 ≡ sample_of ref i

length-frames : (left i : ℕ) (mic ref : List ℕ) → length (frames left i mic ref) ≡ left * 3
length-frames zero i mic ref = refl
length-frames (suc left) i mic ref = omega (arith, length-frames left (i + 1) mic ref)

module _ (mic ref : List ℕ) where
  -- The sample of channel `c` at the j-th place from the i-th on.
  frames_at :
      (left i j : ℕ)
      → j < left
      → (get_or (frames left i mic ref) (j * 3) 0 ≡ get_or mic ((i + j) * 2) 0)
        × (get_or (frames left i mic ref) (j * 3 + 1) 0 ≡ get_or mic ((i + j) * 2 + 1) 0)
        × (get_or (frames left i mic ref) (j * 3 + 2) 0 ≡ sample_of ref (i + j))
  frames_at zero i j h = absurd (omega arith)
  frames_at (suc left) i zero h = let same : i + 0 ≡ i = omega arith in rw same (refl, refl, refl)
  frames_at (suc left) i (suc j) h =
      let same : i + suc j ≡ (i + 1) + j = omega arith in
      let third1 : suc j * 3 + 1 ≡ suc (suc (suc (j * 3 + 1))) = omega arith in
      let third2 : suc j * 3 + 2 ≡ suc (suc (suc (j * 3 + 2))) = omega arith in
      let third : suc j * 3 ≡ suc (suc (suc (j * 3))) = omega arith in
      let (p, q, r) = frames_at left (i + 1) j (omega arith) in
      rw (same, third1, third2, third) (p, q, r)

  frames_from_zero :
      (n i : ℕ)
      → i < n
      → (get_or (frames n 0 mic ref) (i * 3) 0 ≡ get_or mic (i * 2) 0)
        × (get_or (frames n 0 mic ref) (i * 3 + 1) 0 ≡ get_or mic (i * 2 + 1) 0)
        × (get_or (frames n 0 mic ref) (i * 3 + 2) 0 ≡ sample_of ref i)
  frames_from_zero n i h = let same : 0 + i ≡ i = omega arith in rw same at (frames_at n 0 i h)

  frames-Feeds : (n : ℕ) → Feeds n mic ref (frames n 0 mic ref)
  frames-Feeds n = record {
    total = length-frames n 0 mic ref;
    mic1 = λ i h. (frames_from_zero n i h).0;
    mic2 = λ i h. (frames_from_zero n i h).1;
    reference = λ i h. (frames_from_zero n i h).2;
  }

-- The reference that a round uses: the oldest bytes that are queued, and silence behind them.
abbrev pub reference_of : ℕ → Option (List ℕ) → List ℕ
reference_of bytes none = zero_filled bytes []
reference_of bytes (some queued) = zero_filled bytes (take bytes queued)

length-zero_filled :
    (bytes : ℕ) (collected : List ℕ)
    → length collected ≤ bytes
    → length (zero_filled bytes collected) ≡ bytes
length-zero_filled bytes collected h = omega (
  arith,
  length-append collected (replicate (bytes - length collected) 0),
  length-replicate {0} {A = ℕ} (bytes - length collected) 0,
)

-- However the front end's chunk size divides, and in whatever parts the reference comes out of its
-- buffer, a round in which the microphones filled their buffer, with one round of fuel more than there
-- are queued bytes, reads and writes nothing outside the microphones' buffer, the items received, the
-- reference's buffer and the one that is fed, and feeds, at each place, the samples of both microphones and of the reference: the oldest that is queued, with silence
-- where there is not enough.
pub feed_round-Feeds :
    (fuel : ℕ) (part : Contiguous) (feed_chunksize : ℕ) (mic_buf : List ℕ)
    (ref_rb : Option (List ℕ))
    → HandsOut part
    → length mic_buf ≡ feed_chunksize / total_ch * 2
    → ((queued : List ℕ) → ref_rb ≡ some queued → length queued < fuel)
    → (feed_buf : List ℕ) × (left : Option (List ℕ)) × (feed_round fuel part feed_chunksize
          (some mic_buf)
          ref_rb
        ≡ ok (some feed_buf, left))
      × Feeds
          (feed_chunksize / total_ch)
          mic_buf
          (reference_of (feed_chunksize / total_ch * 2) ref_rb)
          feed_buf
unfolding feed_round ◌>>=◌
feed_round-Feeds fuel part feed_chunksize mic_buf none hands full enough =
    let n : ℕ = feed_chunksize / total_ch in
    let ref : List ℕ = reference_of (n * 2) none in
    (
      frames n 0 mic_buf ref,
      none,
      rw
          (interleave_lem n 0 feed_chunksize mic_buf ref (omega (arith, full))
            (omega (arith, length-zero_filled (n * 2) [])) (omega arith))
          refl,
      frames-Feeds mic_buf ref n,
    )
feed_round-Feeds fuel part feed_chunksize mic_buf (some queued) hands full enough =
    let n : ℕ = feed_chunksize / total_ch in
    let ref : List ℕ = reference_of (n * 2) (some queued) in
    let none_yet : n * 2 - 0 ≡ n * 2 = omega arith in
    let (rest, e) =
      collect_lem fuel part (n * 2) [] queued hands (omega arith) (enough queued refl) in
    (
      frames n 0 mic_buf ref,
      some rest,
      rw
          (
            e,
            none_yet,
            interleave_lem n 0 feed_chunksize mic_buf ref (omega (arith, full))
                (omega (
                  arith,
                  length-zero_filled (n * 2) (take (n * 2) queued),
                  length-take {0} (n * 2) queued,
                ))
                (omega arith),
          )
          refl,
      frames-Feeds mic_buf ref n,
    )
