-- ===== src/Device/Ring.antt =====
-- Byte ring buffers as main/audio_hal.c makes and drains them. The buffers themselves are FreeRTOS's.
use esp32s3_box3_doubao.Common.{
  ℕ, zero, suc, ◌≤◌, ◌<◌, ◌≡◌, refl, Option, none, some, List, [], ◌∷◌, length, take, drop,
  length-drop, Exec, ok, fault, arith,
}

-- How many of the bytes that are queued one `xRingbufferReceive` hands out: those up to the end of the
-- buffer's storage.
abbrev pub Contiguous : Type 0
Contiguous = List ℕ → ℕ

-- What is queued is handed out in parts, never more than there is, and something while there is
-- something.
abbrev pub HandsOut : Contiguous → Type 0
HandsOut part =
    (queued : List ℕ) → 0 < length queued → (0 < part queued) × (part queued ≤ length queued)

-- `xRingbufferReceive` without waiting, with what stays queued; `none` is NULL. The item is always
-- returned before the next call.
unfoldable pub ring_receive : Contiguous → List ℕ → Option (List ℕ × List ℕ)
ring_receive part [] = none
ring_receive part (b ∷ bs) = some (take (part (b ∷ bs)) (b ∷ bs), drop (part (b ∷ bs)) (b ∷ bs))

-- The loop of `drain_ringbuf`, with the bytes that stay queued; out of fuel it counts as a fault.
unfoldable pub drain_ringbuf : ℕ → Contiguous → List ℕ → Exec (List ℕ)
unfolding ring_receive
drain_ringbuf zero part queued = fault
drain_ringbuf (suc fuel) part queued = elim (ring_receive part queued) [
  | none ↦ ok queued
  | some (item, rest) ↦ drain_ringbuf fuel part rest
]

-- One round more than there are bytes empties a buffer.
drain_ringbuf_lem :
    (fuel : ℕ) (part : Contiguous) (queued : List ℕ)
    → HandsOut part
    → length queued < fuel
    → drain_ringbuf fuel part queued ≡ ok []
unfolding drain_ringbuf
drain_ringbuf_lem zero part queued hands enough = absurd (omega arith)
drain_ringbuf_lem (suc fuel) part [] hands enough = refl
drain_ringbuf_lem (suc fuel) part (b ∷ bs) hands enough =
    let (some_part, within) = hands (b ∷ bs) (omega arith) in
    drain_ringbuf_lem fuel part (drop (part (b ∷ bs)) (b ∷ bs)) hands
      (omega (arith, length-drop {0} (part (b ∷ bs)) (b ∷ bs)))
