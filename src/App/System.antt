-- ===== src/App/System.antt =====
-- The tasks of main/app_main.c side by side: the main task, the task of the WebSocket client and the
-- callback of the wake word. A step is one task's run from one of its waits to the next, and the
-- tasks step in any order.
pub mod Microphone
use esp32s3_box3_doubao.Common.{ℕ, ◌≡◌, Bool, List, [], ◌∷◌, Exec, ok}
use esp32s3_box3_doubao.Protocol.Response.{Response}
use esp32s3_box3_doubao.WsClient.State.{WsClient}
use esp32s3_box3_doubao.WsClient.Receive.{WsEvent, ws_event_handler}
use esp32s3_box3_doubao.App.State.{App, Env}
use esp32s3_box3_doubao.App.Receive.{on_ws_receive, after_error_wait}
use esp32s3_box3_doubao.App.Receive.Events.{WsPc, ready, exit_wait, error_wait, after_exit_wait}
use esp32s3_box3_doubao.App.WakeWord.{on_wake_word}
use esp32s3_box3_doubao.App.Fsm.{FsmPc, FsmInput, fsm_resume}

pub record System : Type 0 where
  pub app : App
  pub fsm : FsmPc
  pub rx : WsPc

abbrev pub with_ws : WsClient → App → App
with_ws ws' app = record app { ws = ws' }

module _ (E : Env) (realloc : ℕ → Bool) where
  pub data Step : System → System → Type 0 where
    main_task :
        {s : System} (input : FsmInput) {app' : App} {fsm' : FsmPc}
        → fsm_resume E input s.fsm s.app ≡ ok (app', fsm')
        → Step s (record { app = app'; fsm = fsm'; rx = s.rx })
    wake_word :
        {s : System} → Step s (record { app = on_wake_word E s.app; fsm = s.fsm; rx = s.rx })
    -- An event of the transport that completes no message, and one that does.
    socket :
        {s : System} (event : WsEvent) {ws' : WsClient}
        → s.rx ≡ ready
        → ws_event_handler E.platform realloc s.app.ws event ≡ ok (ws', [])
        → Step s (record { app = with_ws ws' s.app; fsm = s.fsm; rx = ready })
    message :
        {s : System} (event : WsEvent) {ws' : WsClient} {resp : Response}
        → s.rx ≡ ready
        → ws_event_handler E.platform realloc s.app.ws event ≡ ok (ws', resp ∷ [])
        → Step s (record {
          app = (on_ws_receive E resp (with_ws ws' s.app)).0;
          fsm = s.fsm;
          rx = (on_ws_receive E resp (with_ws ws' s.app)).1;
        })
    exit_over :
        {s : System}
        → s.rx ≡ exit_wait
        → Step s (record { app = after_exit_wait s.app; fsm = s.fsm; rx = ready })
    error_over :
        {s : System}
        → s.rx ≡ error_wait
        → Step s (record { app = after_error_wait s.app; fsm = s.fsm; rx = ready })

  pub data Reach (start : System) : System → Type 0 where
    here : Reach start start
    more : {s t : System} → Reach start s → Step s t → Reach start t
