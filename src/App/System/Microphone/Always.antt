-- ===== src/App/System/Microphone/Always.antt =====
-- The invariant over every order of the tasks' steps.
use esp32s3_box3_doubao.Common.{
  ℕ, ◌≡◌, refl, Bool, true, false, not, ◌||◌, ◌==◌, Yields-result, if◌then◌else◌,
}
use esp32s3_box3_doubao.Protocol.Constants.{
  msg_server_full_response, msg_server_ack, msg_server_error, event_tts_ended, event_clear_cache,
  event_user_query_end, event_session_finish_1, event_session_finish_2,
}
use esp32s3_box3_doubao.Protocol.Response.{Response}
use esp32s3_box3_doubao.WsClient.Lifecycle.{doubao_ws_is_connected}
use esp32s3_box3_doubao.App.State.{
  App, AppState, Env, idle, connecting, connected_idle, handshaking, listening, speaking,
  set_app_state, set_hint, set_asr_text, set_tts_label, clear_playback, clear_ref, enable_wakenet,
  disable_wakenet, reset_ogg,
}
use esp32s3_box3_doubao.App.Receive.{after_error_wait, audio_of, on_ws_receive}
use esp32s3_box3_doubao.App.Receive.Events.{WsPc, ready, on_event, after_exit_wait, rest_screen}
use esp32s3_box3_doubao.App.WakeWord.{on_wake_word, wake_in}
use esp32s3_box3_doubao.App.Fsm.{FsmPc}
use esp32s3_box3_doubao.App.System.{
  System, Step, Reach, main_task, wake_word, socket, message, exit_over, error_over, here, more,
  with_ws,
}
use esp32s3_box3_doubao.App.System.Microphone.{MicOk}
use esp32s3_box3_doubao.App.System.Microphone.Main.{Good, fsm_resume-Good}
use esp32s3_box3_doubao.App.System.Microphone.Server.{
  kept, resting, tts_text_event-SameMic, asr_event-SameMic, reply_event-SameMic,
  receive_ack-SameMic, tts_ended_event-MicOk, clear_cache_event-MicOk, query_end_event-MicOk,
  server_error-MicOk, session_finish_event_state,
}

abbrev After : FsmPc → App × WsPc → Type 0
After fsm r = MicOk fsm r.1 r.0

choose :
    (fsm : FsmPc) (b : Bool) {m n : App × WsPc}
    → After fsm m
    → After fsm n
    → After fsm (if b then m else n)
choose fsm true p q = p
choose fsm false p q = q

module _ (E : Env) (resp : Response) (fsm : FsmPc) (app : App) (v : MicOk fsm ready app) where
  on_event-MicOk : After fsm (on_event E resp app)
  unfolding on_event
  on_event-MicOk =
      choose fsm (resp.event == 350) (kept fsm ready app _ (tts_text_event-SameMic E resp app) v) (
        choose fsm (resp.event == 451) (kept fsm ready app _ (asr_event-SameMic E resp app) v) (
          choose fsm (resp.event == event_clear_cache) (clear_cache_event-MicOk E resp fsm app) (
            choose fsm (resp.event == event_user_query_end) (query_end_event-MicOk E resp fsm app) (
              choose fsm (resp.event == 550)
                (kept fsm ready app _ (reply_event-SameMic E resp app) v)
                (choose fsm (resp.event == event_tts_ended) (tts_ended_event-MicOk E resp fsm app v)
                  (choose fsm
                    (resp.event == event_session_finish_1 || resp.event == event_session_finish_2)
                    (resting fsm ready _ (session_finish_event_state E resp fsm app)) v))))))

  on_ws_receive-MicOk : After fsm (on_ws_receive E resp app)
  unfolding on_ws_receive
  on_ws_receive-MicOk =
      choose fsm (resp.message_type == msg_server_ack)
        (kept fsm ready app _ (receive_ack-SameMic E resp (audio_of resp) app) v)
        (choose fsm (resp.message_type == msg_server_full_response)
          (choose fsm resp.has_event on_event-MicOk v)
          (choose fsm (resp.message_type == msg_server_error) (server_error-MicOk E resp fsm app v)
            v))

after_exit_state : (app : App) → (after_exit_wait app).app_state ≡ connected_idle
unfolding after_exit_wait rest_screen set_app_state set_asr_text set_tts_label set_hint
after_exit_state app = refl

after_error_state : (app : App) → (after_error_wait app).app_state ≡ connected_idle
unfolding after_error_wait enable_wakenet set_app_state set_asr_text set_tts_label set_hint
after_error_state app = refl

either :
    (fsm : FsmPc) (rx : WsPc) (b : Bool) {m n : App}
    → MicOk fsm rx m
    → MicOk fsm rx n
    → MicOk fsm rx (if b then m else n)
either fsm rx true p q = p
either fsm rx false p q = q

wake_in-MicOk :
    (E : Env) (fsm : FsmPc) (rx : WsPc) (st : AppState) (app : App)
    → app.app_state ≡ st
    → MicOk fsm rx app
    → MicOk fsm rx (wake_in E st app)
unfolding wake_in set_app_state set_hint clear_playback clear_ref reset_ogg disable_wakenet
wake_in-MicOk E fsm rx idle app e v = v
wake_in-MicOk E fsm rx connecting app e v = v
wake_in-MicOk E fsm rx connected_idle app e v =
    either fsm rx (not (doubao_ws_is_connected app.ws))
      (record { when_speaking = λ s. absurd cc; when_listening = λ l a r. absurd cc })
      (record { when_speaking = λ s. absurd cc; when_listening = λ l a r. absurd cc })
wake_in-MicOk E fsm rx handshaking app e v = v
wake_in-MicOk E fsm rx listening app e v = v
wake_in-MicOk E fsm rx speaking app e v = record {
  when_speaking = v.when_speaking;
  when_listening = v.when_listening;
}

abbrev pub Consistent : System → Type 0
Consistent s = MicOk s.fsm s.rx s.app

module _ (E : Env) (realloc : ℕ → Bool) where
  Step-Consistent : {s t : System} → Step E realloc s t → Consistent s → Consistent t
  unfolding on_wake_word
  Step-Consistent {s} (main_task input e) v =
      Yields-result (Good s.rx) (fsm_resume-Good s.rx E input s.fsm s.app v) e
  Step-Consistent {s} wake_word v = wake_in-MicOk E s.fsm s.rx s.app.app_state s.app refl v
  Step-Consistent {s} (socket event r e) v = record {
    when_speaking = v.when_speaking;
    when_listening = λ l a q. v.when_listening l a r;
  }
  Step-Consistent {s} (message event {ws'} {resp} r e) v =
      on_ws_receive-MicOk E resp s.fsm (with_ws ws' s.app) (record {
        when_speaking = v.when_speaking;
        when_listening = λ l a q. v.when_listening l a r;
      })
  Step-Consistent {s} (exit_over r) v = resting s.fsm _ _ (after_exit_state s.app)
  Step-Consistent {s} (error_over r) v = resting s.fsm _ _ (after_error_state s.app)

  -- From a consistent state on, in whatever order the main task, the server's messages and the wake
  -- word take their steps: while the assistant speaks the microphone is not streamed and the wake
  -- word is armed; while it listens the microphone is streamed and the wake word is off, except in
  -- the waits in which the button, an exit or an error is about to end the session.
  pub Reach-Consistent : {s t : System} → Reach E realloc s t → Consistent s → Consistent t
  Reach-Consistent here v = v
  Reach-Consistent (more r step) v = Step-Consistent step (Reach-Consistent r v)
