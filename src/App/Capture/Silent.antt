-- ===== src/App/Capture/Silent.antt =====
-- When audio is captured.
use esp32s3_box3_doubao.Common.{ℕ, ◌≡◌, refl, Bool, false, Option, none, some, arith}
use esp32s3_box3_doubao.App.State.{
  AppState, idle, connecting, connected_idle, handshaking, listening, speaking, App, Env,
  set_app_state, set_hint, clear_playback, clear_ref, disable_wakenet, reset_ogg,
}
use esp32s3_box3_doubao.App.WakeWord.{wake_in, on_wake_word}
use esp32s3_box3_doubao.App.System.{System, Reach}
use esp32s3_box3_doubao.App.System.Microphone.Always.{Consistent, Reach-Consistent}
use esp32s3_box3_doubao.App.Capture.{Fetched, stream_out, fetch_round}

-- What a wake word never touches.
wake_in_keeps :
    (E : Env) (state : AppState) (app : App)
    → ((wake_in E state app).streaming ≡ app.streaming)
      × ((wake_in E state app).audio.capture ≡ app.audio.capture)
unfolding wake_in set_app_state set_hint clear_playback clear_ref disable_wakenet reset_ogg
wake_in_keeps E idle app = (refl, refl)
wake_in_keeps E connecting app = (refl, refl)
wake_in_keeps E connected_idle app = ground arith
wake_in_keeps E handshaking app = (refl, refl)
wake_in_keeps E listening app = (refl, refl)
wake_in_keeps E speaking app = (refl, refl)

-- What a round leaves in the capture buffer.
fetch_round-capture :
    (E : Env) (room : Bool) (res : Option Fetched) (app : App)
    → app.streaming ≡ false
    → (fetch_round E room res app).audio.capture ≡ app.audio.capture
unfolding fetch_round stream_out on_wake_word
fetch_round-capture E room none app off = refl
fetch_round-capture E room (some res) app off =
    let (streaming, capture) = wake_in_keeps E app.app_state app in ground arith

-- In every state that the tasks reach from a consistent one, in whatever order they step, a fetch of
-- the front end while the assistant speaks adds nothing to the captured audio, whatever it heard.
pub Reach-fetch_round_silent :
    (E : Env) (realloc : ℕ → Bool) {start s : System} (room : Bool) (res : Option Fetched)
    → Consistent start
    → Reach E realloc start s
    → s.app.app_state ≡ speaking
    → (fetch_round E room res s.app).audio.capture ≡ s.app.audio.capture
Reach-fetch_round_silent E realloc {s = s} room res v r e =
    fetch_round-capture E room res s.app ((Reach-Consistent E realloc r v).when_speaking e).0
