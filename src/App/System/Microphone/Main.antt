-- ===== src/App/System/Microphone/Main.antt =====
-- The main task.
use esp32s3_box3_doubao.Common.{
  ℕ, ◌+◌, ◌≡◌, ◌≢◌, refl, ◌∙◌, inl, inr, Bool-cases, Bool, true, false, not, ◌&&◌, [], ltb, Yields,
  gives, Yields-bind, Yields-then, Yields-if,
}
use esp32s3_box3_doubao.App.State.{
  App, AppState, idle, connecting, connected_idle, handshaking, listening, speaking, Env,
  set_app_state, set_hint, set_asr_text, set_tts_label, clear_capture, set_streaming,
  enable_wakenet, disable_wakenet,
}
use esp32s3_box3_doubao.App.Receive.Events.{WsPc, log_sent, finish_session, rest_screen}
use esp32s3_box3_doubao.App.Fsm.{
  FsmPc, top, bargein_wait, connect_wait, retry_wait, session_wait, button_wait, button_debounce,
  idle_debounce, pause, halted, hello_wait, FsmInput, connection_failed, wait_for_wake_word,
  cleanup, is_connected_idle, destroy_client, give_up, after_init, connect_case, after_await,
  connected_case, reconnect, connected_idle_case, handshake_case, open_microphone, hello_check,
  say_hello_case, session_check, talking_case, button_case, dispatch, begin_iteration,
  after_bargein, fsm_resume,
}
use esp32s3_box3_doubao.App.System.Microphone.{MicOk}

abbrev pub Good : WsPc → App × FsmPc → Type 0
Good rx r = MicOk r.1 rx r.0

-- In a state that is neither of the two nothing is asked.
elsewhere :
    (fsm : FsmPc) (rx : WsPc) (app : App)
    → app.app_state ≢ listening
    → app.app_state ≢ speaking
    → MicOk fsm rx app
elsewhere fsm rx app l s = record {
  when_speaking = λ e. absurd (s e);
  when_listening = λ e. absurd (l e);
}

module _ (rx : WsPc) where
  connection_failed-Good : (app : App) → Good rx (connection_failed app)
  unfolding connection_failed enable_wakenet set_app_state set_hint
  connection_failed-Good app = elsewhere _ rx _ (λ e. cc) (λ e. cc)

  wait_for_wake_word-Good : (app : App) → Good rx (wait_for_wake_word app)
  unfolding wait_for_wake_word enable_wakenet set_app_state set_hint
  wait_for_wake_word-Good app = elsewhere _ rx _ (λ e. cc) (λ e. cc)

  give_up-Good : (app : App) → Yields (Good rx) (give_up app)
  unfolding give_up
  give_up-Good app =
      Yields-bind (destroy_client app) λ destroyed. gives _ (connection_failed-Good destroyed)

  reconnect-Good : (app : App) → Yields (Good rx) (reconnect app)
  unfolding reconnect set_app_state set_hint
  reconnect-Good app =
      Yields-bind (destroy_client app) λ destroyed. gives _ (elsewhere _ rx _ (λ e. cc) (λ e. cc))

  after_init-Good :
      (input : FsmInput) (made : Bool) (app : App)
      → app.app_state ≡ connecting
      → Yields (Good rx) (after_init input made app)
  unfolding after_init
  after_init-Good input false app e = gives _ (connection_failed-Good app)
  after_init-Good input true app e = Yields-bind _ λ r.
      Yields-if r.0
        (gives _
          (elsewhere connect_wait rx (record app { ws = r.1; blocks = r.2 }) (λ l. cc) (λ l. cc)))
        (give_up-Good _)

  after_await-Good :
      (E : Env) (connected : Bool) (app : App) → Yields (Good rx) (after_await E connected app)
  unfolding after_await
  after_await-Good E false app = give_up-Good app
  after_await-Good E true app = Yields-if _ (gives _ (wait_for_wake_word-Good _)) (give_up-Good _)

  connected_case-Good : (E : Env) (app : App) → Yields (Good rx) (connected_case E app)
  unfolding connected_case
  connected_case-Good E app = Yields-bind _ λ r. after_await-Good E r.0 _

  connected_idle_case-Good :
      (input : FsmInput) (app : App)
      → app.app_state ≡ connected_idle
      → Yields (Good rx) (connected_idle_case input app)
  unfolding connected_idle_case set_app_state set_hint disable_wakenet
  connected_idle_case-Good input app e = Yields-if _ (reconnect-Good app) (
      Yields-if _ (gives _ (elsewhere _ rx _ (λ l. cc) (λ l. cc)))
        (gives _ (elsewhere _ rx _ (λ l. cc) (λ l. cc))))

  handshake_case-Good :
      (E : Env) (app : App) → app.app_state ≡ handshaking → Yields (Good rx) (handshake_case E app)
  unfolding handshake_case set_app_state set_hint enable_wakenet log_sent set_tts_label
  handshake_case-Good E app e = Yields-if _ (reconnect-Good app) (
      Yields-if _ (gives _ (elsewhere _ rx _ (λ l. cc) (λ l. cc)))
        (gives _ (elsewhere _ rx _ (λ l. cc) (λ l. cc))))

  open_microphone-Good : (app : App) → Good rx (open_microphone app)
  unfolding open_microphone set_app_state set_hint clear_capture disable_wakenet set_streaming
  open_microphone-Good app = record {
    when_speaking = λ e. absurd cc;
    when_listening = λ e p q. (refl, refl);
  }

  destroy_client_keeps :
      (app : App) → Yields (λ a. a.app_state ≡ app.app_state) (destroy_client app)
  unfolding destroy_client
  destroy_client_keeps app = Yields-bind _ λ r. gives _ refl

  cleanup_keeps : (app : App) → Yields (λ a. a.app_state ≡ app.app_state) (cleanup app)
  unfolding cleanup
  cleanup_keeps app = Yields-if _ (destroy_client_keeps app) (gives _ refl)

  connect_case-Good :
      (input : FsmInput) (app : App)
      → app.app_state ≡ connecting
      → Yields (Good rx) (connect_case input app)
  unfolding connect_case disable_wakenet
  connect_case-Good input app e = Yields-if _ (gives _ (wait_for_wake_word-Good _)) (
      Yields-then (cleanup_keeps _)
        λ clean keeps. Yields-bind _ λ r. after_init-Good input r.0 _ (keeps ∙ e))

  hello_check-Good :
      (n : ℕ) (app : App) → ((pc : FsmPc) → MicOk pc rx app) → Good rx (hello_check n app)
  unfolding hello_check
  hello_check-Good n app v =
      elim (Bool-cases (not app.say_hello_done && ltb n 100 && app.running)) [
        | inl more ↦ rw more (v (hello_wait n))
        | inr over ↦ rw over (open_microphone-Good app)
      ]

  session_check-Good : (app : App) → ((pc : FsmPc) → MicOk pc rx app) → Good rx (session_check app)
  unfolding session_check rest_screen set_streaming enable_wakenet set_app_state set_asr_text
      set_tts_label set_hint
  session_check-Good app v =
      elim (Bool-cases (not app.session_active && not (is_connected_idle app.app_state))) [
        | inl over ↦ rw over (elsewhere _ rx _ (λ l. cc) (λ l. cc))
        | inr more ↦ rw more (v pause)
      ]

  button_case-Good : (app : App) → Good rx (button_case app)
  unfolding button_case rest_screen enable_wakenet set_app_state set_asr_text set_tts_label set_hint
  button_case-Good app = elsewhere _ rx _ (λ l. cc) (λ l. cc)

  talking_case-Good :
      (E : Env) (input : FsmInput) (app : App)
      → ((pc : FsmPc) → MicOk pc rx app)
      → Good rx (talking_case E input app)
  unfolding talking_case finish_session log_sent set_streaming
  talking_case-Good E input app v = elim (Bool-cases input.button_pressed) [
    | inl pressed ↦ rw pressed (record {
      when_speaking = λ e. (refl, ((v top).when_speaking e).1);
      when_listening = λ e p q. absurd (p refl);
    })
    | inr free ↦ rw free (session_check-Good app v)
  ]

  dispatch-Good :
      (E : Env) (input : FsmInput) (st : AppState) (app : App)
      → app.app_state ≡ st
      → ((pc : FsmPc) → MicOk pc rx app)
      → Yields (Good rx) (dispatch E input st app)
  unfolding dispatch set_app_state
  dispatch-Good E input idle app e v = gives _ (elsewhere _ rx _ (λ l. cc) (λ l. cc))
  dispatch-Good E input connecting app e v = connect_case-Good input app e
  dispatch-Good E input connected_idle app e v = connected_idle_case-Good input app e
  dispatch-Good E input handshaking app e v = handshake_case-Good E app e
  dispatch-Good E input listening app e v = gives _ (talking_case-Good E input app v)
  dispatch-Good E input speaking app e v = gives _ (talking_case-Good E input app v)

  begin_iteration-Good :
      (E : Env) (input : FsmInput) (app : App)
      → ((pc : FsmPc) → MicOk pc rx app)
      → Yields (Good rx) (begin_iteration E input app)
  unfolding begin_iteration finish_session log_sent
  begin_iteration-Good E input app v = Yields-if (not app.running) (gives _ (v halted)) (
      Yields-if app.bargein_requested
        (gives
          (
            finish_session E
                (record app { bargein_requested = false; tts_text = []; last_reply_id = [] }),
            bargein_wait,
          )
          (record {
            when_speaking = (v bargein_wait).when_speaking;
            when_listening = (v bargein_wait).when_listening;
          }))
        (dispatch-Good E input app.app_state app refl v))

  -- Outside the wait behind the button the place does not matter.
  anywhere :
      (pc : FsmPc) (app : App)
      → pc ≢ button_wait
      → MicOk pc rx app
      → (pc' : FsmPc) → MicOk pc' rx app
  anywhere pc app away v pc' = record {
    when_speaking = v.when_speaking;
    when_listening = λ e p q. v.when_listening e away q;
  }

  say_hello_case-Good :
      (E : Env) (app : App) → ((pc : FsmPc) → MicOk pc rx app) → Good rx (say_hello_case E app)
  unfolding say_hello_case log_sent
  say_hello_case-Good E app v =
      hello_check-Good 0 _ λ pc. record {
        when_speaking = (v pc).when_speaking;
        when_listening = (v pc).when_listening;
      }

  after_bargein_state : (app : App) → (after_bargein app).app_state ≡ handshaking
  unfolding after_bargein set_app_state set_asr_text set_tts_label
  after_bargein_state app = refl

  pub fsm_resume-Good :
      (E : Env) (input : FsmInput) (pc : FsmPc) (app : App)
      → MicOk pc rx app
      → Yields (Good rx) (fsm_resume E input pc app)
  unfolding fsm_resume dispatch set_app_state
  fsm_resume-Good E input top app v =
      begin_iteration-Good E input app (anywhere top app (λ e. cc) v)
  fsm_resume-Good E input bargein_wait app v =
      handshake_case-Good E (after_bargein app) (after_bargein_state app)
  fsm_resume-Good E input connect_wait app v = connected_case-Good E app
  fsm_resume-Good E input retry_wait app v = gives _ (elsewhere _ rx _ (λ l. cc) (λ l. cc))
  fsm_resume-Good E input session_wait app v =
      gives _ (say_hello_case-Good E app (anywhere session_wait app (λ e. cc) v))
  fsm_resume-Good E input (hello_wait n) app v =
      gives _ (hello_check-Good (n + 1) app (anywhere (hello_wait n) app (λ e. cc) v))
  fsm_resume-Good E input button_wait app v = gives _ (button_case-Good app)
  fsm_resume-Good E input button_debounce app v =
      gives _ (session_check-Good app (anywhere button_debounce app (λ e. cc) v))
  fsm_resume-Good E input idle_debounce app v =
      gives _ (anywhere idle_debounce app (λ e. cc) v pause)
  fsm_resume-Good E input pause app v = gives _ (anywhere pause app (λ e. cc) v top)
  fsm_resume-Good E input halted app v = gives _ v
