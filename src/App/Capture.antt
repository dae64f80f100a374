-- ===== src/App/Capture.antt =====
-- `afe_fetch_task` of main/afe_handler.c, with `on_wake_word` as its callback.
pub mod Silent
use esp32s3_box3_doubao.Common.{
  ℕ, Bool, true, false, not, ◌&&◌, Option, none, some, List, [], ◌∷◌, ◌++◌, length, ltb,
  if◌then◌else◌,
}
use esp32s3_box3_doubao.App.State.{App, Env}
use esp32s3_box3_doubao.App.WakeWord.{on_wake_word}

-- `afe_fetch_result_t`: the processed audio, as bytes, and whether `wakeup_state` is
-- WAKENET_DETECTED.
pub record Fetched : Type 0 where
  pub bytes : List ℕ
  pub detected : Bool

-- `room` says whether `xRingbufferSend` finds room in the capture buffer within 10 ms.
unfoldable pub stream_out : Bool → List ℕ → App → App
stream_out room bytes app =
    if app.streaming && room
    then record app { audio = record app.audio { capture = app.audio.capture ++ (bytes ∷ []) } }
    else app

unfoldable pub use_fetched : Env → Bool → Fetched → App → App
unfolding stream_out
use_fetched E room res app =
    let woken = if res.detected then on_wake_word E app else app in
    if not (ltb 0 (length res.bytes)) then app else stream_out room res.bytes woken

-- One round of the loop; `none` is a `fetch` that returns NULL.
unfoldable pub fetch_round : Env → Bool → Option Fetched → App → App
unfolding use_fetched
fetch_round E room none app = app
fetch_round E room (some res) app = use_fetched E room res app
