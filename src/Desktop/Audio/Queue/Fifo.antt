-- ===== src/Desktop/Audio/Queue/Fifo.antt =====
-- What the play queue promises: chunks come out in order, and a cleared queue is empty.
use esp32s3_box3_doubao.Common.{ℕ, Bool, if◌then◌else◌, Option, none, some, List, [], ◌∷◌, ◌++◌}
use esp32s3_box3_doubao.Desktop.Audio.Queue.{Op, push, pop, play, clear}

-- The chunk being played, if there is one, and those that wait.
pub record Chunks : Type 0 where
  pub audible : Bool
  pub current : Option (List ℕ)
  pub waiting : List (List ℕ)

abbrev pub pop_chunk : Option (List ℕ) → List (List ℕ) → Option (List ℕ) × List (List ℕ)
pop_chunk (some bytes) waiting = (some bytes, waiting)
pop_chunk none [] = (none, [])
pop_chunk none (bytes ∷ waiting) = (some bytes, waiting)

abbrev pub played : Bool → Option (List ℕ) → List (List ℕ)
played audible none = []
played audible (some bytes) = if audible then bytes ∷ [] else []

unfoldable pub step : Op → Chunks → List (List ℕ) × Chunks
step (push none bytes) c = ([], c)
step (push (some b) bytes) c = ([], record c { waiting = c.waiting ++ (bytes ∷ []) })
step pop c =
    let (current', waiting') = pop_chunk c.current c.waiting in
    ([], record c { current = current'; waiting = waiting' })
step play c = (played c.audible c.current, record c { current = none })
step clear c = ([], record c { waiting = [] })
