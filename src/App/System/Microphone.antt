-- ===== src/App/System/Microphone.antt =====
-- When the microphone is streamed and when the wake word is listened for.
pub mod Server
pub mod Main
pub mod Always
use esp32s3_box3_doubao.Common.{ℕ, ◌≡◌, ◌≢◌, Bool, true, false}
use esp32s3_box3_doubao.App.State.{App, listening, speaking}
use esp32s3_box3_doubao.App.Receive.Events.{WsPc, ready}
use esp32s3_box3_doubao.App.Fsm.{FsmPc, button_wait}

-- While the assistant speaks the microphone is off and the wake word is on. While it listens it is
-- the other way round, outside the waits in which a task ends the session.
pub record MicOk (fsm : FsmPc) (rx : WsPc) (app : App) : Type 0 where
  pub when_speaking : app.app_state ≡ speaking → (app.streaming ≡ false) × (app.wakenet ≡ true)
  pub when_listening :
      app.app_state ≡ listening
      → fsm ≢ button_wait
      → rx ≡ ready
      → (app.streaming ≡ true) × (app.wakenet ≡ false)

-- The state that the invariant looks at is left alone.
pub record SameMic (app app' : App) : Type 0 where
  pub app_state : app'.app_state ≡ app.app_state
  pub streaming : app'.streaming ≡ app.streaming
  pub wakenet : app'.wakenet ≡ app.wakenet
