-- ===== src/App/Boot/Wifi.antt =====
-- `wifi_event_handler`, and the end of `wifi_init_sta`, of main/app_main.c.
pub mod Retries
use esp32s3_box3_doubao.Common.{ℕ, ◌+◌, Bool, true, false, List, [], ◌∷◌, ltb, if◌then◌else◌}

pub data WifiEvent : Type 0 where
  sta_start sta_disconnected sta_got_ip other_event : WifiEvent

abbrev pub wifi_max_retry : ℕ
wifi_max_retry = 5

-- `s_retry_num`, the two bits of `s_wifi_event_group`, and the calls of `esp_wifi_connect` so far.
pub record Wifi : Type 0 where
  pub retry_num : ℕ
  pub connected_bit : Bool
  pub fail_bit : Bool
  pub connects : ℕ

abbrev pub started : Wifi
started = record { retry_num = 0; connected_bit = false; fail_bit = false; connects = 0 }

unfoldable pub wifi_event_handler : WifiEvent → Wifi → Wifi
wifi_event_handler sta_start w = record w { connects = w.connects + 1 }
wifi_event_handler sta_disconnected w =
    if ltb w.retry_num wifi_max_retry
    then record w { connects = w.connects + 1; retry_num = w.retry_num + 1 }
    else record w { fail_bit = true }
wifi_event_handler sta_got_ip w = record w { retry_num = 0; connected_bit = true }
wifi_event_handler other_event w = w

-- The events of a time, the latest one first.
unfoldable pub after_events : List WifiEvent → Wifi
after_events [] = started
after_events (event ∷ earlier) = wifi_event_handler event (after_events earlier)

-- `xEventGroupWaitBits` returns with the bits as they are when one is set, or when the time is up;
-- `wifi_init_sta` returns 0 if the first is among them.
unfoldable pub wifi_init_sta : List WifiEvent → Bool
wifi_init_sta events = (after_events events).connected_bit
