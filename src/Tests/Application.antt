-- ===== src/Tests/Application.antt =====
-- The application's theorems at a concrete state.
use esp32s3_box3_doubao.Common.{arith, ◌≡◌, replicate, take, some, refl, true, false, none, [], ◌∷◌}
use esp32s3_box3_doubao.App.State.{App, CJson, Env, speaking}
use esp32s3_box3_doubao.App.Receive.Events.{ready}
use esp32s3_box3_doubao.App.WakeWord.{on_wake_word}
use esp32s3_box3_doubao.App.Fsm.{FsmInput, top, pause, say_hello_case, fsm_resume}
use esp32s3_box3_doubao.App.Fsm.Handshake.{run_wait, Listens, say_hello_case-Listens}
use esp32s3_box3_doubao.App.State.{listening}
use esp32s3_box3_doubao.App.Receive.Events.{log_sent}
use esp32s3_box3_doubao.App.Transmit.{chunk_bytes, tx_round}
use esp32s3_box3_doubao.App.Transmit.Chunks.{tx_round_cuts}
use esp32s3_box3_doubao.App.Capture.{fetch_round}
use esp32s3_box3_doubao.App.Capture.Silent.{Reach-fetch_round_silent}
use esp32s3_box3_doubao.WsClient.Requests.{doubao_ws_send_audio}
use esp32s3_box3_doubao.App.System.{System, Reach, main_task, wake_word, here, more}
use esp32s3_box3_doubao.App.System.Microphone.Always.{Consistent, Reach-Consistent}
use esp32s3_box3_doubao.Tests.Fixtures.{
  board, app_config, open_client, heap, init_works, echo_codec, fresh_decoder,
}

-- No text parses.
abbrev no_json : CJson
no_json = record {
  parse_with_length = λ bytes. none;
  get_object_item = λ item key. none;
  is_string = λ item. false;
  is_bool = λ item. false;
  is_true = λ item. false;
  is_array = λ item. false;
  get_array_size = λ item. 0;
  get_array_item = λ item i. none;
  valuestring = λ item. none;
}

abbrev env : Env
env = record {
  platform = board;
  json = no_json;
  codec = echo_codec;
  send_bin = λ frame. true;
  playback_room = λ queued pcm. true;
}

abbrev input : FsmInput
input = record {
  button_pressed = false;
  config = app_config;
  init_env = init_works;
  handle_ok = true;
  start_ok = true;
}

abbrev speaking_app : App
speaking_app = record {
  app_state = speaking;
  ws = open_client;
  blocks = heap;
  sent = [];
  opus = fresh_decoder;
  audio = record { capture = []; playback = []; reference = [] };
  streaming = false;
  wakenet = true;
  running = true;
  session_active = true;
  say_hello_done = true;
  user_querying = false;
  bargein_requested = false;
  tts_text = [];
  last_reply_id = [];
  ui = record { state_label = "Speaking"; asr_text = []; tts_text = []; hint = "" };
}

say_hello_case-Listens_example :
    Listens (run_wait env input (λ n app. app) 100 (say_hello_case env speaking_app))
say_hello_case-Listens_example = say_hello_case-Listens env input (λ n app. app) speaking_app

abbrev at_rest : System
at_rest = record { app = speaking_app; fsm = pause; rx = ready }

abbrev after_wake : System
after_wake = record { app = on_wake_word env speaking_app; fsm = top; rx = ready }

abbrev running_on : System
running_on = record { app = speaking_app; fsm = top; rx = ready }

two_steps : Reach env (λ n. true) at_rest after_wake
unfolding fsm_resume
two_steps = more {s = running_on} (more here (main_task input refl)) wake_word

at_rest-Consistent : Consistent at_rest
at_rest-Consistent = record {
  when_speaking = λ e. (refl, refl);
  when_listening = λ e a r. absurd cc;
}

Reach-Consistent_example : Consistent after_wake
Reach-Consistent_example = Reach-Consistent env (λ n. true) two_steps at_rest-Consistent

abbrev listening_app : App
listening_app = record speaking_app { app_state = listening; streaming = true; wakenet = false }

tx_round_cuts_example :
    tx_round env
      (record { item = some (replicate 700 1); still_listening = true })
      listening_app
      (9 ∷ [])
    ≡ (
      log_sent listening_app (
          doubao_ws_send_audio board
            (λ frame. true)
            open_client
            (take chunk_bytes (9 ∷ replicate 700 1))),
      [],
    )
tx_round_cuts_example =
    tx_round_cuts env true listening_app (replicate 700 1) (9 ∷ []) refl refl (omega arith)

Reach-fetch_round_silent_example :
    (fetch_round env true
      (some (record { bytes = 1 ∷ 2 ∷ []; detected = true }))
      speaking_app).audio.capture
    ≡ []
Reach-fetch_round_silent_example =
    Reach-fetch_round_silent env (λ n. true) true
      (some (record { bytes = 1 ∷ 2 ∷ []; detected = true })) at_rest-Consistent here refl
