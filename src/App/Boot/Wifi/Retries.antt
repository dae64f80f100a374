-- ===== src/App/Boot/Wifi/Retries.antt =====
-- How often WiFi is tried.
use esp32s3_box3_doubao.Common.{
  ℕ, suc, ◌+◌, ◌*◌, ◌≤◌, ◌≡◌, refl, Bool, true, false, ◌||◌, List, [], ◌∷◌, min, ltb, arith,
}
use esp32s3_box3_doubao.App.Boot.Wifi.{
  WifiEvent, sta_start, sta_disconnected, sta_got_ip, other_event, wifi_max_retry, Wifi,
  wifi_event_handler, after_events,
}

-- The disconnections since the last address, and the history's other numbers.
abbrev losses : List WifiEvent → ℕ
losses [] = 0
losses (sta_got_ip ∷ earlier) = 0
losses (sta_disconnected ∷ earlier) = suc (losses earlier)
losses (_ ∷ earlier) = losses earlier

abbrev ever_online : List WifiEvent → Bool
ever_online [] = false
ever_online (sta_got_ip ∷ earlier) = true
ever_online (_ ∷ earlier) = ever_online earlier

-- Whether there was a time with more than five disconnections in a row.
abbrev ever_lost : List WifiEvent → Bool
ever_lost [] = false
ever_lost (event ∷ earlier) = ltb wifi_max_retry (losses (event ∷ earlier)) || ever_lost earlier

abbrev pub addresses : List WifiEvent → ℕ
addresses [] = 0
addresses (sta_got_ip ∷ earlier) = suc (addresses earlier)
addresses (_ ∷ earlier) = addresses earlier

abbrev pub starts : List WifiEvent → ℕ
starts [] = 0
starts (sta_start ∷ earlier) = suc (starts earlier)
starts (_ ∷ earlier) = starts earlier

pub record IsHistory (events : List WifiEvent) (w : Wifi) : Type 0 where
  pub retries : w.retry_num ≡ min (losses events) wifi_max_retry
  pub online : w.connected_bit ≡ ever_online events
  pub gives_up : w.fail_bit ≡ ever_lost events
  pub bounded : w.connects ≤ starts events + 5 * addresses events + w.retry_num

lost_now :
    (events : List WifiEvent)
    → (ltb wifi_max_retry (losses events) || ever_lost events) ≡ ever_lost events
lost_now [] = refl
lost_now (event ∷ earlier) = ground arith

-- In every history of events: the count of retries is that of the disconnections since the last
-- address, up to five; the bits say whether there ever was an address, and whether there ever were
-- more than five disconnections without one in between; and `esp_wifi_connect` has been called at
-- most once for each start, five times for each address and once for each retry that is counted.
pub after_events-IsHistory : (events : List WifiEvent) → IsHistory events (after_events events)
unfolding after_events wifi_event_handler
after_events-IsHistory [] = record {
  retries = refl;
  online = refl;
  gives_up = refl;
  bounded = omega arith;
}
after_events-IsHistory (sta_start ∷ earlier) =
    let v = after_events-IsHistory earlier in
    record {
      retries = v.retries;
      online = v.online;
      gives_up = ground (arith, lost_now earlier, v.gives_up);
      bounded = omega (arith, v.bounded);
    }
after_events-IsHistory (other_event ∷ earlier) =
    let v = after_events-IsHistory earlier in
    record {
      retries = v.retries;
      online = v.online;
      gives_up = ground (arith, lost_now earlier, v.gives_up);
      bounded = v.bounded;
    }
after_events-IsHistory (sta_got_ip ∷ earlier) =
    let v = after_events-IsHistory earlier in
    record {
      retries = refl;
      online = refl;
      gives_up = v.gives_up;
      bounded = omega (arith, v.bounded, v.retries);
    }
after_events-IsHistory (sta_disconnected ∷ earlier) =
    let v = after_events-IsHistory earlier in
    record {
      retries = ground (arith, v.retries);
      online = ground (arith, v.online);
      gives_up = ground (arith, v.retries, v.gives_up);
      bounded = ground (arith, v.bounded);
    }
