-- ===== src/App/Fsm.antt =====
-- `main_fsm_task` of main/app_main.c. The task gives up the processor in its delays and in the wait
-- of `doubao_ws_connect`; `FsmPc` names the places where it goes on, and `fsm_resume` runs it from
-- one such place to the next.
pub mod Handshake
use esp32s3_box3_doubao.Common.{
  is_some, ℕ, ◌+◌, Bool, true, false, not, ◌&&◌, ◌||◌, Option, none, some, List, [], ltb, Exec, ok,
  ◌>>=◌, if◌then◌else◌,
}
use esp32s3_box3_doubao.WsClient.State.{WsConfig, WsClient}
use esp32s3_box3_doubao.WsClient.Lifecycle.{
  Blocks, InitEnv, doubao_ws_init, doubao_ws_set_recv_callback, open_transport, await_connection,
  doubao_ws_is_connected, doubao_ws_destroy,
}
use esp32s3_box3_doubao.WsClient.Requests.{
  Sent, doubao_ws_start_connection, doubao_ws_start_session, doubao_ws_say_hello,
}
use esp32s3_box3_doubao.App.State.{
  AppState, idle, connecting, connected_idle, handshaking, listening, speaking, App, Env,
  set_app_state, set_hint, set_asr_text, set_tts_label, clear_capture, set_streaming,
  enable_wakenet, disable_wakenet, ◌▷◌,
}
use esp32s3_box3_doubao.App.Receive.Events.{log_sent, finish_session, rest_screen}

-- `hello_wait n` is the wait for the greeting, with `wait_count` n.
pub data FsmPc : Type 0 where
  top bargein_wait connect_wait retry_wait session_wait button_wait button_debounce : FsmPc
  idle_debounce pause halted : FsmPc
  hello_wait : ℕ → FsmPc

-- What the task meets from one place to the next: the button, and which calls succeed.
pub record FsmInput : Type 0 where
  pub button_pressed : Bool
  pub config : WsConfig
  pub init_env : InitEnv
  pub handle_ok : Bool
  pub start_ok : Bool

abbrev pub Ran : Type 0
Ran = Exec (App × FsmPc)

-- `doubao_ws_destroy(&g_ws_client)`.
unfoldable pub destroy_client : App → Exec App
destroy_client app = do
  (ws', blocks') ← doubao_ws_destroy app.ws app.blocks
  ok (record app { ws = ws'; blocks = blocks' })

-- Every failure to connect: a hint, and another try after 3 s.
unfoldable pub connection_failed : App → App × FsmPc
connection_failed app = (
  app ▷ enable_wakenet ▷ set_app_state connected_idle ▷ set_hint "Connection failed, retrying...",
  retry_wait,
)

unfoldable pub wait_for_wake_word : App → App × FsmPc
wait_for_wake_word app = (
  app
      ▷ enable_wakenet
      ▷ set_app_state connected_idle
      ▷ set_hint "Say \"hi, jason\" or press button",
  top,
)

unfoldable pub cleanup : App → Exec App
cleanup app =
    if is_some app.ws.event_group || is_some app.ws.recv_buf || is_some app.ws.ws_handle
    then destroy_client app
    else ok app

unfoldable pub give_up : App → Ran
give_up app = do destroyed ← destroy_client app; ok (connection_failed destroyed)

-- The rest of APP_STATE_CONNECTING behind `doubao_ws_init`, up to the wait of `doubao_ws_connect`.
unfoldable pub after_init : FsmInput → Bool → App → Ran
after_init input false app = ok (connection_failed app)
after_init input true app = do
  (opened, ws', blocks') ←
      open_transport input.handle_ok input.start_ok (doubao_ws_set_recv_callback app.ws true)
        app.blocks
  let trying = record app { ws = ws'; blocks = blocks' }
  if opened then ok (trying, connect_wait) else give_up trying

-- APP_STATE_CONNECTING.
unfoldable pub connect_case : FsmInput → App → Ran
connect_case input app0 =
    let app = disable_wakenet app0 in
    if doubao_ws_is_connected app.ws then ok (wait_for_wake_word app) else do
      clean ← cleanup app
      (made, ws', blocks') ← doubao_ws_init input.init_env input.config clean.blocks
      after_init input made (record clean { ws = ws'; blocks = blocks' })

-- Behind the wait of `doubao_ws_connect`, by whether it connected.
unfoldable pub after_await : Env → Bool → App → Ran
after_await E false app = give_up app
after_await E true app =
    let started = doubao_ws_start_connection E.platform E.send_bin app.ws in
    let logged = log_sent app started in
    if started.0 then ok (wait_for_wake_word logged) else give_up logged

unfoldable pub connected_case : Env → App → Ran
connected_case E app = do
  (connected, ws', blocks') ← await_connection app.ws app.blocks
  after_await E connected (record app { ws = ws'; blocks = blocks' })

unfoldable pub reconnect : App → Ran
reconnect app = do
  destroyed ← destroy_client app
  ok (destroyed ▷ set_app_state connecting ▷ set_hint "Reconnecting...", top)

-- APP_STATE_CONNECTED_IDLE.
unfoldable pub connected_idle_case : FsmInput → App → Ran
connected_idle_case input app =
    if not (doubao_ws_is_connected app.ws)
    then reconnect app
    else if input.button_pressed
    then ok (
      app ▷ disable_wakenet ▷ set_app_state handshaking ▷ set_hint "Button pressed!",
      idle_debounce,
    )
    else ok (app, pause)

-- APP_STATE_HANDSHAKING, up to the wait behind StartSession.
unfoldable pub handshake_case : Env → App → Ran
handshake_case E app =
    let cleared = record app { tts_text = []; last_reply_id = [] } ▷ set_tts_label [] in
    let started = doubao_ws_start_session E.platform E.send_bin app.ws in
    let logged = log_sent cleared started in
    if not (doubao_ws_is_connected app.ws)
    then reconnect app
    else if not started.0
    then ok (
      logged ▷ enable_wakenet ▷ set_app_state connected_idle ▷ set_hint "Session failed, try again",
      top,
    )
    else ok (logged, session_wait)

-- The microphone is opened, after the greeting or the end of the wait for it.
unfoldable pub open_microphone : App → App × FsmPc
open_microphone app = (
  record (app ▷ clear_capture ▷ disable_wakenet ▷ set_streaming true) { user_querying = true }
      ▷ set_app_state listening
      ▷ set_hint "Listening...",
  top,
)

-- The test of the loop that waits for the greeting, at `wait_count` n.
unfoldable pub hello_check : ℕ → App → App × FsmPc
hello_check n app =
    if not app.say_hello_done && ltb n 100 && app.running
    then (app, hello_wait n)
    else open_microphone app

unfoldable pub say_hello_case : Env → App → App × FsmPc
say_hello_case E app =
    let opened = record app { say_hello_done = false; session_active = true } in
    hello_check 0 (log_sent opened (doubao_ws_say_hello E.platform E.send_bin app.ws))

abbrev pub is_connected_idle : AppState → Bool
is_connected_idle connected_idle = true
is_connected_idle _ = false

-- The server may have ended the session.
unfoldable pub session_check : App → App × FsmPc
session_check app =
    if not app.session_active && not (is_connected_idle app.app_state)
    then (app ▷ set_streaming false ▷ enable_wakenet ▷ rest_screen, pause)
    else (app, pause)

-- APP_STATE_LISTENING and APP_STATE_SPEAKING, up to the wait behind FinishSession.
unfoldable pub talking_case : Env → FsmInput → App → App × FsmPc
talking_case E input app =
    if input.button_pressed
    then (finish_session E (set_streaming false app), button_wait)
    else session_check app

unfoldable pub button_case : App → App × FsmPc
button_case app =
    (record app { session_active = false } ▷ enable_wakenet ▷ rest_screen, button_debounce)

-- The `switch`.
unfoldable pub dispatch : Env → FsmInput → AppState → App → Ran
dispatch E input idle app = ok (set_app_state connecting app, pause)
dispatch E input connecting app = connect_case input app
dispatch E input connected_idle app = connected_idle_case input app
dispatch E input handshaking app = handshake_case E app
dispatch E input listening app = ok (talking_case E input app)
dispatch E input speaking app = ok (talking_case E input app)

-- The start of an iteration: the test of `g_running`, and the barge-in that was asked for.
unfoldable pub begin_iteration : Env → FsmInput → App → Ran
begin_iteration E input app =
    let cleared = record app { bargein_requested = false; tts_text = []; last_reply_id = [] } in
    if not app.running
    then ok (app, halted)
    else if app.bargein_requested
    then ok (finish_session E cleared, bargein_wait)
    else dispatch E input app.app_state app

unfoldable pub after_bargein : App → App
after_bargein app =
    record app { session_active = false }
    ▷ set_app_state handshaking
    ▷ set_asr_text []
    ▷ set_tts_label []

unfoldable pub fsm_resume : Env → FsmInput → FsmPc → App → Ran
fsm_resume E input top app = begin_iteration E input app
fsm_resume E input bargein_wait app = dispatch E input handshaking (after_bargein app)
fsm_resume E input connect_wait app = connected_case E app
fsm_resume E input retry_wait app = ok (set_app_state connecting app, top)
fsm_resume E input session_wait app = ok (say_hello_case E app)
fsm_resume E input (hello_wait n) app = ok (hello_check (n + 1) app)
fsm_resume E input button_wait app = ok (button_case app)
fsm_resume E input button_debounce app = ok (session_check app)
fsm_resume E input idle_debounce app = ok (app, pause)
fsm_resume E input pause app = ok (app, top)
fsm_resume E input halted app = ok (app, halted)
