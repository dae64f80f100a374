-- ===== src/Tests/Device.antt =====
-- The theorems on the device's audio at concrete inputs.
use esp32s3_box3_doubao.Common.{
  ℕ, ◌≡◌, refl, true, false, Option, none, some, false, List, [], ◌∷◌, length, arith, ok, min,
}
use esp32s3_box3_doubao.Device.Ring.{Contiguous, HandsOut}
use esp32s3_box3_doubao.Device.Hal.{RingEnv, HalEnv, no_hal, audio_hal_init}
use esp32s3_box3_doubao.Device.Hal.Life.{SetsUp, audio_hal_init-SetsUp}
use esp32s3_box3_doubao.Device.Afe.Feed.{feed_round}
use esp32s3_box3_doubao.Device.Afe.Feed.Interleaved.{Feeds, reference_of, feed_round-Feeds}
use esp32s3_box3_doubao.Device.Afe.Control.{AfeEnv}
use esp32s3_box3_doubao.Device.Afe.Control.Life.{afe_life, live_after, afe_life_balanced}
use esp32s3_box3_doubao.Opus.Life
use esp32s3_box3_doubao.Opus.Life.Laws.{life, life_balanced}
use esp32s3_box3_doubao.App.Boot.Wifi.{
  WifiEvent, sta_start, sta_disconnected, sta_got_ip, after_events,
}
use esp32s3_box3_doubao.App.Boot.Wifi.Retries.{IsHistory, after_events-IsHistory}
use esp32s3_box3_doubao.App.Boot.Start.{BootEnv, nvs_ok, nvs_no_free_pages}
use esp32s3_box3_doubao.Tests.Fixtures.{heap}

-- At most three bytes at a time.
abbrev by_three : Contiguous
by_three queued = min (length queued) 3

by_three-HandsOut : HandsOut by_three
by_three-HandsOut queued h = (omega arith, omega arith)

abbrev mics : List ℕ
mics = 1 ∷ 2 ∷ 3 ∷ 4 ∷ []

abbrev played : List ℕ
played = 5 ∷ 0 ∷ 6 ∷ 0 ∷ 7 ∷ []

feed_round-Feeds_example :
    (feed_buf : List ℕ) × (left : Option (List ℕ)) × (feed_round 6 by_three 7
        (some mics)
        (some played)
      ≡ ok (some feed_buf, left))
    × Feeds 2 mics (reference_of 4 (some played)) feed_buf
feed_round-Feeds_example =
    feed_round-Feeds 6 by_three 7 mics (some played) by_three-HandsOut refl
      (λ queued e. ground arith)

abbrev afe_works : AfeEnv
afe_works = record {
  models_ok = true;
  hijason = none;
  any_wakenet = some (119 ∷ 110 ∷ []);
  config_ok = true;
  handle_ok = true;
  create_ok = true;
  feed_chunksize = 960;
  fetch_chunksize = 320;
}

afe_life_balanced_example : live_after (afe_life afe_works true true false true heap) ≡ ok heap.live
afe_life_balanced_example = afe_life_balanced afe_works true true false true heap

abbrev no_spiram : Life.InitEnv
no_spiram = record { encoder_ok = true; decoder_ok = true; spiram_ok = false; malloc_ok = true }

life_balanced_example : life no_spiram heap ≡ ok heap.live
life_balanced_example = life_balanced no_spiram heap

abbrev flaky : List WifiEvent
flaky = sta_disconnected ∷ sta_got_ip ∷ sta_disconnected ∷ sta_start ∷ []

after_events-IsHistory_example : IsHistory flaky (after_events flaky)
after_events-IsHistory_example = after_events-IsHistory flaky

abbrev ring_works : RingEnv
ring_works = record { struct_ok = true; storage_ok = true; create_ok = true }

abbrev hal_works : HalEnv
hal_works = record {
  i2c_ok = true;
  audio_ok = true;
  speaker_ok = true;
  speaker_open_ok = true;
  microphone_ok = true;
  microphone_open_ok = true;
  capture = ring_works;
  playback = ring_works;
  ref = ring_works;
}

abbrev no_reference : HalEnv
no_reference = record hal_works { ref = record ring_works { storage_ok = false } }

audio_hal_init-SetsUp_example : SetsUp false (audio_hal_init no_reference no_hal heap) heap
audio_hal_init-SetsUp_example = audio_hal_init-SetsUp no_reference heap

abbrev boots : BootEnv
boots = record {
  nvs = nvs_no_free_pages;
  nvs_erased = true;
  nvs_again = nvs_ok;
  wifi_checks = true;
  wifi_events = flaky;
  sntp_reset = λ poll. true;
  tm_year = 70;
  hal = hal_works;
  opus = no_spiram;
  afe = afe_works;
  lcd_ok = false;
  feed_task_ok = true;
  play_task_ok = true;
  tx_task_ok = true;
  fsm_task_ok = false;
}
