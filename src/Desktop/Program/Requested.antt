-- ===== src/Desktop/Program/Requested.antt =====
-- What a program run on a file asks for.
use esp32s3_box3_doubao.Common.{ℕ, ◌≤◌, ◌<◌, ◌≡◌, Bool, true, List, [], ◌∷◌, ◌++◌, length}
use esp32s3_box3_doubao.Desktop.Requests.Laws.{Request, task_request}

-- The audio that requests carry.
abbrev audio_in : List Request → List ℕ
audio_in [] = []
audio_in (task_request audio ∷ requests) = audio ++ audio_in requests
audio_in (_ ∷ requests) = audio_in requests

-- Nothing but audio is asked for, in parts of at least one byte and at most a chunk.
abbrev AreChunks : ℕ → List Request → Type 0
AreChunks chunk_bytes [] = Unit
AreChunks chunk_bytes (task_request audio ∷ requests) =
    (0 < length audio) × (length audio ≤ chunk_bytes) × AreChunks chunk_bytes requests
AreChunks chunk_bytes (_ ∷ requests) = ⊥

-- The requests carry the front part of `bytes`, all of it if the program keeps running.
abbrev pub Carries : ℕ → (ℕ → Bool) → List Request → List ℕ → Type 0
Carries chunk_bytes running requests bytes =
    (unsent : List ℕ) × (audio_in requests ++ unsent ≡ bytes)
    × AreChunks chunk_bytes requests
    × (((n : ℕ) → running n ≡ true) → unsent ≡ [])
