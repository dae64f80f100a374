-- ===== src/App/Receive/Events.antt =====
-- The events of `on_ws_receive`.
use Prim.Native.String.{String}
use esp32s3_box3_doubao.Common.{
  ℕ, Bool, true, false, not, ◌&&◌, ◌||◌, Option, none, some, List, [], ◌++◌, ltb, ◌==◌,
  if◌then◌else◌,
}
use esp32s3_box3_doubao.Common.Text.{utf8}
use esp32s3_box3_doubao.Protocol.Constants.{
  event_tts_ended, event_clear_cache, event_user_query_end, event_session_finish_1,
  event_session_finish_2,
}
use esp32s3_box3_doubao.Protocol.Response.{Response}
use esp32s3_box3_doubao.WsClient.Requests.{Sent, doubao_ws_finish_session}
use esp32s3_box3_doubao.App.State.{
  App, CJson, Env, connected_idle, listening, speaking, set_app_state, set_hint, set_asr_text,
  set_tts_label, clear_playback, clear_capture, clear_ref, set_streaming, enable_wakenet,
  disable_wakenet, reset_ogg, ◌▷◌,
}
use esp32s3_box3_doubao.App.Display.{append_tts, same_text, note_reply_id}

-- Where the task of the WebSocket client stands: between responses, or in one of the two waits of
-- `on_ws_receive`.
pub data WsPc : Type 0 where
  ready exit_wait error_wait : WsPc

-- A request's frames, with its return value ignored.
unfoldable pub log_sent : App → Sent → App
log_sent app (done, frames) = record app { sent = app.sent ++ frames }

unfoldable pub finish_session : Env → App → App
unfolding log_sent
finish_session E app = log_sent app (doubao_ws_finish_session E.platform E.send_bin app.ws)

-- `resp->payload_data && !resp->is_binary`, parsed.
unfoldable pub json_payload : CJson → Response → Option ℕ
json_payload J resp = elim (if resp.is_binary then none else resp.payload_data) [
  | none ↦ none
  | some bytes ↦ J.parse_with_length bytes
]

-- The text of a field that is a string.
unfoldable pub string_field : CJson → ℕ → String → Option (List ℕ)
string_field J root key = elim (J.get_object_item root key) [
  | none ↦ none
  | some item ↦ if J.is_string item then J.valuestring item else none
]

abbrev pub with_text : Option (List ℕ) → (List ℕ → App → App) → App → App
with_text none f app = app
with_text (some text) f app = f text app

abbrev pub with_item : Option ℕ → (ℕ → App → App) → App → App
with_item none f app = app
with_item (some item) f app = f item app

-- Event 350.
unfoldable pub tts_text_event : Env → Response → App → App
tts_text_event E resp =
    with_item (json_payload E.json resp)
      λ root. with_text (string_field E.json root "text") append_tts

-- `is_final`: a missing `is_interim`, or one that is no Boolean, counts as final.
unfoldable pub is_final : CJson → ℕ → Bool
is_final J result0 = elim (J.get_object_item result0 "is_interim") [
  | none ↦ true
  | some item ↦ if J.is_bool item then not (J.is_true item) else true
]

-- `results[0]`, where `results` is an array that is not empty.
unfoldable pub first_result : CJson → ℕ → Option ℕ
first_result J root = elim (J.get_object_item root "results") [
  | none ↦ none
  | some results ↦
      if J.is_array results && ltb 0 (J.get_array_size results)
      then J.get_array_item results 0
      else none
]

-- Event 451.
unfoldable pub asr_event : Env → Response → App → App
asr_event E resp = with_item (json_payload E.json resp) λ root.
    with_item (first_result E.json root) λ result0 app.
      if is_final E.json result0
      then with_text (string_field E.json result0 "text") set_asr_text app
      else app

-- Event 550.
unfoldable pub reply_event : Env → Response → App → App
reply_event E resp = with_item (json_payload E.json resp) λ root app.
    with_text (string_field E.json root "content") append_tts
      (with_text (string_field E.json root "reply_id") note_reply_id app)

unfoldable pub start_listening : App → App
start_listening app =
    record app { user_querying = true }
    ▷ disable_wakenet
    ▷ set_streaming true
    ▷ set_app_state listening
    ▷ set_hint "Listening..."

-- EVENT_CLEAR_CACHE, the barge-in that the server sees.
unfoldable pub clear_cache_event : Env → App → App
clear_cache_event E app =
    app ▷ clear_playback ▷ clear_capture ▷ clear_ref ▷ reset_ogg E ▷ start_listening

-- EVENT_USER_QUERY_END.
unfoldable pub query_end_event : App → App
query_end_event app =
    record app { user_querying = false }
    ▷ set_streaming false
    ▷ enable_wakenet
    ▷ clear_capture
    ▷ set_app_state speaking
    ▷ set_hint "AI is responding..."

-- Back to waiting for the wake word.
unfoldable pub rest_screen : App → App
rest_screen app =
    app
    ▷ set_app_state connected_idle
    ▷ set_asr_text []
    ▷ set_tts_label []
    ▷ set_hint "Say \"hi, jason\" or press button"

-- The status code "20000002".
unfoldable pub exit_intent : CJson → Response → Bool
exit_intent J resp = elim (if ltb 0 resp.payload_data_len then json_payload J resp else none) [
  | none ↦ false
  | some root ↦ elim (string_field J root "status_code") [
    | none ↦ false
    | some code ↦ same_text code (utf8 "20000002")
  ]
]

-- EVENT_TTS_ENDED, up to the wait of 500 ms that an exit makes.
unfoldable pub tts_ended_event : Env → Response → App → App × WsPc
tts_ended_event E resp app =
    let cleared = app ▷ clear_playback ▷ clear_capture ▷ clear_ref ▷ reset_ogg E in
    if not app.say_hello_done
    then (record cleared { say_hello_done = true }, ready)
    else if exit_intent E.json resp
    then (finish_session E (cleared ▷ set_streaming false ▷ enable_wakenet), exit_wait)
    else (start_listening cleared, ready)

unfoldable pub after_exit_wait : App → App
after_exit_wait app = rest_screen (record app { session_active = false })

-- EVENT_SESSION_FINISH_1 and EVENT_SESSION_FINISH_2.
unfoldable pub session_finish_event : App → App
session_finish_event app =
    record app { session_active = false } ▷ set_streaming false ▷ enable_wakenet ▷ rest_screen

-- The `switch`; the other events are only logged.
unfoldable pub on_event : Env → Response → App → App × WsPc
on_event E resp app =
    if resp.event == 350
    then (tts_text_event E resp app, ready)
    else if resp.event == 451
    then (asr_event E resp app, ready)
    else if resp.event == event_clear_cache
    then (clear_cache_event E app, ready)
    else if resp.event == event_user_query_end
    then (query_end_event app, ready)
    else if resp.event == 550
    then (reply_event E resp app, ready)
    else if resp.event == event_tts_ended
    then tts_ended_event E resp app
    else if resp.event == event_session_finish_1 || resp.event == event_session_finish_2
    then (session_finish_event app, ready)
    else (app, ready)
