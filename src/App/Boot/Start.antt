-- ===== src/App/Boot/Start.antt =====
-- `sync_system_time` and `app_main` of main/app_main.c.
pub mod Up
use esp32s3_box3_doubao.Common.{
  ℕ, zero, suc, ◌+◌, ◌-◌, Bool, true, false, not, ◌&&◌, List, [], ◌∷◌, ltb, Exec, ok, ◌>>=◌,
  if◌then◌else◌,
}
use esp32s3_box3_doubao.Common.Text.{utf8}
use esp32s3_box3_doubao.WsClient.Lifecycle.{Blocks}
use esp32s3_box3_doubao.Opus.Life
use esp32s3_box3_doubao.Opus.Life.{Processor, opus_proc_init, opus_proc_set_output_cb}
use esp32s3_box3_doubao.Device.Hal.{Hal, HalEnv, no_hal, audio_hal_init}
use esp32s3_box3_doubao.Device.Afe.Control.{
  AfeEnv, Handler, idle_handler, afe_handler_init, afe_handler_start,
}
use esp32s3_box3_doubao.App.State.{AppState, idle, connecting}
use esp32s3_box3_doubao.App.Boot.Wifi.{WifiEvent, wifi_init_sta}

abbrev pub retry_count : ℕ
retry_count = 15

-- How often the loop waits 2 s, from the retry-th time on; `reset` says of each of its polls whether
-- the status is SNTP_SYNC_STATUS_RESET. 15 polls are enough, so that running out of fuel is the end
-- of the loop.
unfoldable pub wait_for_time : ℕ → (ℕ → Bool) → ℕ → ℕ
wait_for_time zero reset retry = 0
wait_for_time (suc fuel) reset retry =
    let more = wait_for_time fuel reset (retry + 1) in
    if reset retry then (if ltb (retry + 1) retry_count then more + 1 else 0) else 0

-- Whether it returns 0, and sets the time zone, and how often it waited; `tm_year` is what
-- `localtime_r` gives behind the loop.
unfoldable pub sync_system_time : (ℕ → Bool) → ℕ → Bool × ℕ
unfolding wait_for_time
sync_system_time reset tm_year =
    (not (ltb tm_year (2016 - 1900)), wait_for_time retry_count reset 0)

-- What `nvs_flash_init` returns.
pub data NvsInit : Type 0 where
  nvs_ok nvs_no_free_pages nvs_new_version nvs_failed : NvsInit

abbrev nvs_is_ok : NvsInit → Bool
nvs_is_ok nvs_ok = true
nvs_is_ok _ = false

abbrev nvs_is_stale : NvsInit → Bool
nvs_is_stale nvs_no_free_pages = true
nvs_is_stale nvs_new_version = true
nvs_is_stale _ = false

-- Whether the checks of the first part pass: flash that is full or of another version is erased once.
unfoldable pub nvs_ready : NvsInit → Bool → NvsInit → Bool
nvs_ready first erased second =
    if nvs_is_stale first then erased && nvs_is_ok second else nvs_is_ok first

-- What the parts of the start meet. `wifi_checks` says that the checks of `wifi_init_sta` in front of
-- its wait pass, and `wifi_events` are the events of that wait, the latest first.
pub record BootEnv : Type 0 where
  pub nvs : NvsInit
  pub nvs_erased : Bool
  pub nvs_again : NvsInit
  pub wifi_checks : Bool
  pub wifi_events : List WifiEvent
  pub sntp_reset : ℕ → Bool
  pub tm_year : ℕ
  pub hal : HalEnv
  pub opus : Life.InitEnv
  pub afe : AfeEnv
  pub lcd_ok : Bool
  pub feed_task_ok : Bool
  pub play_task_ok : Bool
  pub tx_task_ok : Bool
  pub fsm_task_ok : Bool

-- `ESP_ERROR_CHECK` aborts; WiFi that fails restarts the device; an error is shown on the display and
-- `app_main` returns; or it comes to its end.
pub data Ended : Type 0 where
  aborted restarted audio_error opus_error afe_error up : Ended

-- The tasks that `app_main` creates.
pub data Task : Type 0 where
  audio_play ws_tx main_fsm : Task

-- `shown` and `hint` are the last texts of `ui_lcd_set_state` and `ui_lcd_set_hint` that the display
-- got; `tasks` are the calls of `xTaskCreatePinnedToCore` for the tasks of the application, the first
-- one first, with their success.
pub record Boot : Type 0 where
  pub ended : Ended
  pub time_set : Bool
  pub waits : ℕ
  pub display : Bool
  pub shown : List ℕ
  pub hint : List ℕ
  pub tasks : List (Task × Bool)
  pub app_state : AppState
  pub hal : Hal
  pub opus_proc : Processor
  pub afe : Handler
  pub blocks : Blocks

abbrev pub not_yet : Blocks → Boot
not_yet h = record {
  ended = aborted;
  time_set = false;
  waits = 0;
  display = false;
  shown = [];
  hint = [];
  tasks = [];
  app_state = idle;
  hal = no_hal;
  opus_proc = Life.cleared;
  afe = idle_handler;
  blocks = h;
}

-- Without a display there is no label, and the text is not set.
unfoldable pub show_state : List ℕ → Boot → Boot
show_state text boot = if boot.display then record boot { shown = text } else boot

unfoldable pub show_hint : List ℕ → Boot → Boot
show_hint text boot = if boot.display then record boot { hint = text } else boot

-- The tasks of the application, and the results of their creation, which are only logged.
abbrev pub asked : BootEnv → List (Task × Bool)
asked env =
    (audio_play, env.play_task_ok) ∷ (ws_tx, env.tx_task_ok) ∷ (main_fsm, env.fsm_task_ok) ∷ []

-- From `ui_lcd_set_state("Connecting")` on, with `set_app_state` at the end.
unfoldable pub start_tasks : BootEnv → Boot → Boot
unfolding show_state show_hint
start_tasks env boot =
    let shows = show_hint (utf8 "Connecting to server...") (show_state (utf8 "Connecting") boot) in
    show_state (utf8 "Connecting")
      (record shows { ended = up; tasks = asked env; app_state = connecting })

unfoldable pub start_afe : BootEnv → Boot → Exec Boot
unfolding start_tasks show_state
start_afe env boot = do
  (made, afe', h') ← afe_handler_init env.afe true boot.afe boot.blocks
  let held = record boot { blocks = h' }
  if made
      then ok (start_tasks env (record held { afe = afe_handler_start env.feed_task_ok afe' }))
      else ok (show_state (utf8 "AFE Error") (record held { ended = afe_error; afe = afe' }))

unfoldable pub start_opus : BootEnv → Boot → Exec Boot
unfolding start_afe show_state
start_opus env boot = do
  (made, proc, h') ← opus_proc_init env.opus boot.blocks
  let held = record boot { blocks = h' }
  if made
      then start_afe env (record held { opus_proc = opus_proc_set_output_cb proc true })
      else ok
          (show_state (utf8 "Opus Error") (record held { ended = opus_error; opus_proc = proc }))

unfoldable pub start_audio : BootEnv → Boot → Exec Boot
unfolding start_opus show_state
start_audio env boot = do
  (made, hal', h') ← audio_hal_init env.hal boot.hal boot.blocks
  let held = record boot { hal = hal'; blocks = h' }
  if made
      then start_opus env held
      else ok (show_state (utf8 "Audio Error") (record held { ended = audio_error }))

-- `ui_lcd_init`, and the first text.
unfoldable pub display_up : Bool → Boot → Boot
unfolding show_state
display_up lcd_ok boot = show_state (utf8 "Booting...") (record boot { display = lcd_ok })

-- Time that is not synchronised and a display that is not there only cause a message.
unfoldable pub app_main : BootEnv → Blocks → Exec Boot
unfolding start_audio display_up
app_main env h =
    if not (nvs_ready env.nvs env.nvs_erased env.nvs_again && env.wifi_checks)
    then ok (not_yet h)
    else if not (wifi_init_sta env.wifi_events)
    then ok (record (not_yet h) { ended = restarted })
    else (let (time_set, waits) = sync_system_time env.sntp_reset env.tm_year in
        start_audio env
          (display_up env.lcd_ok (record (not_yet h) { time_set = time_set; waits = waits })))
