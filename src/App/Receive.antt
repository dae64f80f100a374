-- ===== src/App/Receive.antt =====
-- `on_ws_receive` of main/app_main.c, in the task of the WebSocket client.
pub mod Events
use esp32s3_box3_doubao.Common.{
  ℕ, Bool, true, false, not, ◌&&◌, ◌||◌, Option, none, some, List, [], ◌∷◌, ◌++◌, ltb, ◌==◌,
  if◌then◌else◌,
}
use esp32s3_box3_doubao.Protocol.Constants.{
  msg_server_full_response, msg_server_ack, msg_server_error,
}
use esp32s3_box3_doubao.Protocol.Response.{Response}
use esp32s3_box3_doubao.WsClient.Requests.{Sent, doubao_ws_finish_session}
use esp32s3_box3_doubao.Opus.{opus_proc_decode_ogg}
use esp32s3_box3_doubao.App.State.{
  App, Env, connected_idle, set_app_state, set_hint, set_asr_text, set_tts_label, clear_playback,
  clear_capture, clear_ref, set_streaming, enable_wakenet, reset_ogg, ◌▷◌,
}
use Events.{WsPc, ready, error_wait, on_event, finish_session}

-- `on_decoded_pcm`: an item for which there is no room in time is dropped.
unfoldable pub on_decoded_pcm : Env → App → List ℕ → App
on_decoded_pcm E app pcm =
    if E.playback_room app.audio.playback pcm
    then record app { audio = record app.audio { playback = app.audio.playback ++ (pcm ∷ []) } }
    else app

unfoldable pub play_all : Env → App → List (List ℕ) → App
play_all E app [] = app
play_all E app (pcm ∷ rest) = play_all E (on_decoded_pcm E app pcm) rest

-- TTS audio.
unfoldable pub receive_audio : Env → List ℕ → App → App
receive_audio E bytes app =
    let (opus', frames) = opus_proc_decode_ogg E.codec app.opus bytes in
    play_all E (record app { opus = opus' }) frames

-- A recoverable error ends the session; the handler then waits 300 ms and goes on in
-- `after_error_wait`. Any other error stops the system.
unfoldable pub server_error : Env → Response → App → App × WsPc
server_error E resp app =
    let cleaned =
      app ▷ clear_playback ▷ clear_capture ▷ clear_ref ▷ reset_ogg E ▷ set_streaming false in
    let ended = record cleaned { session_active = false; tts_text = []; last_reply_id = [] } in
    if resp.error_code == 55000001 || resp.error_code == 52000042
    then (finish_session E ended, error_wait)
    else (record app { running = false }, ready)

unfoldable pub after_error_wait : App → App
after_error_wait app =
    app
    ▷ enable_wakenet
    ▷ set_app_state connected_idle
    ▷ set_asr_text []
    ▷ set_tts_label []
    ▷ set_hint "Timeout, say \"hi, jason\" again"

abbrev pub audio_of : Response → Option (List ℕ)
audio_of resp = if resp.is_binary then resp.payload_data else none

-- The first test is of an ACK with binary data; an ACK without falls through to nothing.
unfoldable pub receive_ack : Env → App → Option (List ℕ) → App
receive_ack E app none = app
receive_ack E app (some bytes) = receive_audio E bytes app

unfoldable pub on_ws_receive : Env → Response → App → App × WsPc
on_ws_receive E resp app =
    if resp.message_type == msg_server_ack
    then (receive_ack E app (audio_of resp), ready)
    else if resp.message_type == msg_server_full_response
    then (if resp.has_event then on_event E resp app else (app, ready))
    else if resp.message_type == msg_server_error
    then server_error E resp app
    else (app, ready)
