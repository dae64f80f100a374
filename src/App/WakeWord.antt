-- ===== src/App/WakeWord.antt =====
-- `on_wake_word` of main/app_main.c, in the fetch task of the AFE.
use esp32s3_box3_doubao.Common.{true, not, if◌then◌else◌}
use esp32s3_box3_doubao.WsClient.Lifecycle.{doubao_ws_is_connected}
use esp32s3_box3_doubao.App.State.{
  AppState, connected_idle, handshaking, speaking, App, Env, set_app_state, set_hint,
  clear_playback, clear_ref, disable_wakenet, reset_ogg, ◌▷◌,
}

unfoldable pub wake_in : Env → AppState → App → App
wake_in E connected_idle app =
    if not (doubao_ws_is_connected app.ws)
    then set_hint "Reconnecting..." app
    else app ▷ disable_wakenet ▷ set_app_state handshaking ▷ set_hint "Wake word detected!"
wake_in E speaking app =
    record (app ▷ clear_playback ▷ clear_ref ▷ reset_ogg E) { bargein_requested = true }
    ▷ set_hint "Barge-in detected!"
wake_in E _ app = app

unfoldable pub on_wake_word : Env → App → App
unfolding wake_in
on_wake_word E app = wake_in E app.app_state app
