-- ===== src/App/Boot/Start/Up.antt =====
-- When the device comes up.
use esp32s3_box3_doubao.Common.{
  List, [], ℕ, zero, suc, ◌+◌, ◌<◌, ◌≡◌, Bool, true, false, ◌&&◌, ◌||◌, arith, Exec, ok, fail,
  fault,
}
use esp32s3_box3_doubao.WsClient.Lifecycle.{Blocks}
use esp32s3_box3_doubao.Opus.Life
use esp32s3_box3_doubao.Opus.Life.{Processor}
use esp32s3_box3_doubao.Device.Hal.{Hal}
use esp32s3_box3_doubao.Device.Hal.Life.{devices_ok, buffers_ok}
use esp32s3_box3_doubao.Device.Afe.Control.{AfeEnv}
use esp32s3_box3_doubao.App.Boot.Wifi.{wifi_init_sta}
use esp32s3_box3_doubao.App.State.{AppState, idle, connecting}
use esp32s3_box3_doubao.App.Boot.Start.{
  retry_count, wait_for_time, nvs_ready, BootEnv, Ended, up, Boot, Task, asked, display_up, not_yet,
  sync_system_time,
}

-- The wait for the time ends: it is at most 14 times 2 s.
wait_for_time-bound :
    (fuel : ℕ) (reset : ℕ → Bool) (retry : ℕ)
    → retry < retry_count
    → wait_for_time fuel reset retry + retry < retry_count
unfolding wait_for_time
wait_for_time-bound zero reset retry h = omega arith
wait_for_time-bound (suc fuel) reset retry h =
    let ih : retry + 1 < retry_count
        → wait_for_time fuel reset (retry + 1) + (retry + 1) < retry_count =
      wait_for_time-bound fuel reset (retry + 1) in
    ground arith

-- What is seen of a start from outside: whether it came to its end, the tasks that were asked for,
-- and the state of the application.
abbrev pub Seen : Type 0
Seen = Bool × List (Task × Bool) × AppState

abbrev pub ended_up : Ended → Bool
ended_up up = true
ended_up _ = false

abbrev pub nothing_started : Seen
nothing_started = (false, [], idle)

abbrev pub seen : Exec Boot → Seen
seen (ok boot) = (ended_up boot.ended, boot.tasks, boot.app_state)
seen fail = nothing_started
seen fault = nothing_started

-- All or nothing.
abbrev pub verdict : BootEnv → Bool → Seen
verdict env true = (true, asked env, connecting)
verdict env false = nothing_started

-- No task is asked for yet.
abbrev IsEarly : Boot → Type 0
IsEarly boot = (boot.tasks ≡ []) × (boot.app_state ≡ idle)

abbrev opus_ok : Life.InitEnv → Bool
opus_ok env = env.encoder_ok && (env.decoder_ok && (env.spiram_ok || env.malloc_ok))

abbrev afe_ok : AfeEnv → Bool
afe_ok env = env.models_ok && (env.config_ok && (env.handle_ok && env.create_ok))

-- What a set-up says, if it ends.
made_of {ℓ} : {A : Type ℓ} → Exec (Bool × A × Blocks) → Exec Bool
made_of (ok (made, x, h)) = ok made
made_of fail = fail
made_of fault = fault

abbrev booting : BootEnv → Blocks → Boot
booting env h =
    let (time_set, waits) = sync_system_time env.sntp_reset env.tm_year in
    display_up env.lcd_ok (record (not_yet h) { time_set = time_set; waits = waits })

-- The flash and WiFi are there.
abbrev pub online : BootEnv → Bool
online env =
    nvs_ready env.nvs env.nvs_erased env.nvs_again
    && env.wifi_checks
    && wifi_init_sta env.wifi_events

-- Every part that the application needs.
abbrev pub all_parts : BootEnv → Bool
all_parts env =
    online env
    && ((devices_ok env.hal && buffers_ok env.hal) && (opus_ok env.opus && afe_ok env.afe))
