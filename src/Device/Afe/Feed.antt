-- ===== src/Device/Afe/Feed.antt =====
-- One round of the loop of `afe_feed_task`. The buffers are three: 2 channels of the microphones, the
-- reference of what is played, as bytes, and their interleaving. The last samples of the third, up to
-- two, to which a chunk size that 3 does not divide leads, are never written, and left out.
mod Collected
pub mod Interleaved
use esp32s3_box3_doubao.Common.{
  ℕ, zero, suc, ◌+◌, ◌-◌, ◌*◌, ◌/◌, Bool, Option, none, some, List, [], ◌∷◌, ◌++◌, length, take,
  replicate, min, ltb, read, slice, store, Exec, ok, fault, ◌>>=◌, if◌then◌else◌,
}
use esp32s3_box3_doubao.Device.Ring.{Contiguous, ring_receive}

-- MIC1, MIC2 and REF.
abbrev pub total_ch : ℕ
total_ch = 3

-- `memcpy` of the first bytes of an item behind those that `ref_buf` holds already: a fault if the item
-- has fewer, or the buffer of `ref_buf_bytes` bytes no room for them.
unfoldable pub copy_item : ℕ → List ℕ → List ℕ → ℕ → Exec (List ℕ)
copy_item ref_buf_bytes collected item to_copy = do
  copied ← slice item 0 to_copy
  store ref_buf_bytes collected copied

-- The loop that collects the reference, with the bytes collected; what an item has beyond
-- `ref_buf_bytes` is lost when the item is returned. Out of fuel it counts as a fault.
unfoldable pub collect : ℕ → Contiguous → ℕ → List ℕ → List ℕ → Exec (List ℕ × List ℕ)
unfolding ring_receive copy_item
collect zero part ref_buf_bytes collected queued = fault
collect (suc fuel) part ref_buf_bytes collected queued =
    let more : Exec (List ℕ × List ℕ) = elim (ring_receive part queued) [
      | none ↦ ok (collected, queued)
      | some (item, rest) ↦
          let room = ref_buf_bytes - length collected in
          let to_copy = if ltb (length item) room then length item else room in
          copy_item ref_buf_bytes collected item to_copy >>= λ grown.
          collect fuel part ref_buf_bytes grown rest
    ] in
    if ltb (length collected) ref_buf_bytes then more else ok (collected, queued)

-- What `memset` leaves behind the bytes collected.
abbrev pub zero_filled : ℕ → List ℕ → List ℕ
zero_filled bytes collected = collected ++ replicate (bytes - length collected) 0

-- `ref_buf[i]`, a 16-bit sample with the low byte first.
unfoldable pub sample : List ℕ → ℕ → Exec ℕ
sample bytes i = do lo ← read bytes (i * 2); hi ← read bytes (i * 2 + 1); ok (lo + 256 * hi)

-- A write to the k-th sample of a buffer of `size` samples is inside it.
unfoldable pub slot : ℕ → ℕ → Exec (Unit {0})
slot size k = if ltb k size then ok tt else fault

-- The loop over the samples, from the i-th on, into a buffer of `feed_chunksize` samples.
unfoldable pub interleave : ℕ → ℕ → ℕ → List ℕ → List ℕ → Exec (List ℕ)
unfolding sample slot
interleave zero i feed_chunksize mic_buf ref_buf = ok []
interleave (suc left) i feed_chunksize mic_buf ref_buf = do
  mic1 ← read mic_buf (i * 2 + 0)
  mic2 ← read mic_buf (i * 2 + 1)
  ref ← sample ref_buf i
  at1 ← slot feed_chunksize (i * 3 + 0)
  at2 ← slot feed_chunksize (i * 3 + 1)
  at3 ← slot feed_chunksize (i * 3 + 2)
  rest ← interleave left (i + 1) feed_chunksize mic_buf ref_buf
  ok (mic1 ∷ mic2 ∷ ref ∷ rest)

-- What `feed` is called with, if it is, and the reference that stays queued. `mic` is what
-- `audio_hal_read_stereo` fills the buffer with; `none` is a failed read, after which the task waits.
unfoldable pub feed_round :
    ℕ
    → Contiguous
    → ℕ
    → Option (List ℕ)
    → Option (List ℕ)
    → Exec (Option (List ℕ) × Option (List ℕ))
unfolding collect interleave
feed_round fuel part feed_chunksize none ref_rb = ok (none, ref_rb)
feed_round fuel part feed_chunksize (some mic_buf) none = do
  let samples_per_ch = feed_chunksize / total_ch
  feed_buf ←
      interleave samples_per_ch 0 feed_chunksize mic_buf (zero_filled (samples_per_ch * 2) [])
  ok (some feed_buf, none)
feed_round fuel part feed_chunksize (some mic_buf) (some queued) = do
  let samples_per_ch = feed_chunksize / total_ch
  (collected, rest) ← collect fuel part (samples_per_ch * 2) [] queued
  feed_buf ←
      interleave samples_per_ch 0 feed_chunksize mic_buf
        (zero_filled (samples_per_ch * 2) collected)
  ok (some feed_buf, some rest)
