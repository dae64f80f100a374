-- ===== src/App/Playback.antt =====
-- `audio_play_task` of main/app_main.c.
use esp32s3_box3_doubao.Common.{ℕ, Bool, Option, none, some, List, [], ◌∷◌, ◌++◌, if◌then◌else◌}

-- One round of the loop, with both buffers in place, on what `xRingbufferReceive` takes out of the
-- playback buffer within 100 ms: what is handed to `audio_hal_write`, and the items queued for the
-- reference, to which an item goes if there is room at once.
unfoldable pub play_round : Bool → Option (List ℕ) → List (List ℕ) → Option (List ℕ) × List (List ℕ)
play_round room none reference = (none, reference)
play_round room (some item) reference =
    (some item, if room then reference ++ (item ∷ []) else reference)
