-- ===== src/App/Fsm/Handshake.antt =====
-- The wait for the greeting, whatever the other tasks do meanwhile.
use esp32s3_box3_doubao.Common.{
  ℕ, zero, suc, ◌+◌, ◌≡◌, refl, true, false, not, ◌&&◌, ltb, arith, Exec, ok, ◌>>=◌, Bool-cases,
  inl, inr,
}
use esp32s3_box3_doubao.App.State.{
  App, Env, listening, set_app_state, set_hint, clear_capture, disable_wakenet, set_streaming,
}
use esp32s3_box3_doubao.App.Fsm.{
  FsmPc, top, hello_wait, FsmInput, hello_check, open_microphone, say_hello_case, fsm_resume,
}

-- The main task from a wait for the greeting on, through at most the given number of waits;
-- `between n` is what the other tasks do during the wait with `wait_count` n.
abbrev pub run_wait : Env → FsmInput → (ℕ → App → App) → ℕ → App × FsmPc → Exec (App × FsmPc)
run_wait E input between (suc fuel) (app, hello_wait n) =
    fsm_resume E input (hello_wait n) (between n app) >>= λ r. run_wait E input between fuel r
run_wait E input between fuel r = ok r

-- The microphone is open, and the wake word is off.
abbrev pub Listens : Exec (App × FsmPc) → Type 0
Listens r =
    (app : App) × (r ≡ ok (app, top))
    × (app.app_state ≡ listening)
    × (app.streaming ≡ true)
    × (app.wakenet ≡ false)

open_microphone-Listens : (app : App) → Listens (ok (open_microphone app))
unfolding open_microphone set_app_state set_hint clear_capture disable_wakenet set_streaming
open_microphone-Listens app = (_, refl, refl, refl, refl)

module _ (E : Env) (input : FsmInput) (between : ℕ → App → App) where
  opened :
      (fuel : ℕ) (app : App)
      → run_wait E input between fuel (open_microphone app) ≡ ok (open_microphone app)
  unfolding open_microphone
  opened zero app = refl
  opened (suc fuel) app = refl

  hello_check-Listens :
      (fuel n : ℕ) (app : App)
      → n + fuel ≡ 100
      → Listens (run_wait E input between fuel (hello_check n app))
  unfolding hello_check fsm_resume ◌>>=◌
  hello_check-Listens zero n app e =
      let over : (not app.say_hello_done && ltb n 100 && app.running) ≡ false = ground arith in
      rw over (rw (opened zero app) (open_microphone-Listens app))
  hello_check-Listens (suc fuel) n app e =
      elim (Bool-cases (not app.say_hello_done && ltb n 100 && app.running)) [
        | inl more ↦ rw more (hello_check-Listens fuel (n + 1) (between n app) (omega arith))
        | inr over ↦ rw over (rw (opened (suc fuel) app) (open_microphone-Listens app))
      ]

  -- The wait for the greeting always ends: whatever the other tasks change between its steps, after
  -- at most 100 waits the main task listens, with the microphone open and the wake word off.
  pub say_hello_case-Listens :
      (app : App) → Listens (run_wait E input between 100 (say_hello_case E app))
  unfolding say_hello_case
  say_hello_case-Listens app = hello_check-Listens 100 0 _ refl
