-- ===== src/Tests/Client.antt =====
-- The theorems of the WebSocket client at concrete states.
use esp32s3_box3_doubao.Common.{
  ◌≡◌, refl, true, false, none, some, [], ◌∷◌, arith, length, take, replicate, ◌^◌, ◌-◌, fault,
  ◌>>=◌, Ensures,
}
use esp32s3_box3_doubao.Protocol.Response.{Response, parse_response}
use esp32s3_box3_doubao.WsClient.Uuid.{generate_uuid, uuid_text, generate_uuid_cuts}
use esp32s3_box3_doubao.WsClient.Command.{build_command}
use esp32s3_box3_doubao.WsClient.Command.Layout.{
  Command, IsCommand, HasRoom, layout, build_command-layout,
}
use esp32s3_box3_doubao.WsClient.Requests.Laws.{send_audio, perform, command_of, perform-layout}
use esp32s3_box3_doubao.WsClient.Receive.{Chunk, data_event, deliver, ws_event_handler}
use esp32s3_box3_doubao.WsClient.Receive.Bounds.{Fits, ws_event_handler-Fits}
use esp32s3_box3_doubao.WsClient.Receive.Reassembly.{chunked, Delivers, run_events-chunked}
use esp32s3_box3_doubao.WsClient.Lifecycle.{InitEnv}
use esp32s3_box3_doubao.WsClient.Lifecycle.Laws.{attempt, attempt_balanced}
use esp32s3_box3_doubao.Tests.Fixtures.{
  board, app_config, open_client, heap, init_works, late_connection,
}

generate_uuid_cuts_example : generate_uuid (λ i. i) 12 ≡ take 11 (uuid_text (λ i. i))
generate_uuid_cuts_example = generate_uuid_cuts (λ i. i) 12 (omega arith) (omega arith)

abbrev audio_command : Command
audio_command = command_of open_client (send_audio (1 ∷ 2 ∷ 3 ∷ []))

audio_command-IsCommand : IsCommand audio_command
audio_command-IsCommand = record {
  msg_type_fits = omega arith;
  flags_fits = omega arith;
  serial_fits = omega arith;
  cmd_id_fits = omega arith;
  small = omega arith;
}

audio_command-HasRoom : HasRoom board audio_command
audio_command-HasRoom = record { for_payload = λ _. refl; for_frame = refl }

build_command-layout_example :
    build_command board 2 4 0 1 200 (some (97 ∷ 98 ∷ [])) (some (1 ∷ 2 ∷ 3 ∷ [])) true
    ≡ some (layout audio_command, length (layout audio_command))
build_command-layout_example =
    build_command-layout board 1 audio_command audio_command-IsCommand audio_command-HasRoom

perform-layout_example :
    perform board (λ frame. true) open_client (send_audio (1 ∷ 2 ∷ 3 ∷ []))
    ≡ (true, layout audio_command ∷ [])
perform-layout_example =
    perform-layout board (λ frame. true) open_client (send_audio (1 ∷ 2 ∷ 3 ∷ [])) refl
      audio_command-IsCommand audio_command-HasRoom

open_client-Fits : Fits open_client
open_client-Fits = record { held = omega arith; bounded = omega arith }

abbrev part : Chunk
part = record { op_code = 2; data_ptr = 0x11 ∷ []; payload_len = 4; payload_offset = 0 }

ws_event_handler-Fits_example :
    Ensures (λ r. Fits r.0) (ws_event_handler board (λ n. true) open_client (data_event part))
ws_event_handler-Fits_example =
    ws_event_handler-Fits board (λ n. true) open_client (data_event part) (omega arith)
      open_client-Fits

abbrev empty_response : Response
empty_response = record {
  message_type = 0;
  event = 2 ^ 32 - 1;
  has_event = false;
  seq = 0;
  has_seq = false;
  session_id = replicate 128 0;
  payload_size = 0;
  is_binary = false;
  payload_data = none;
  payload_data_len = 0;
  error_code = 0;
}

run_events-chunked_example :
    Delivers board open_client
      (chunked 4 0 ((0x11 ∷ 0 ∷ []) ∷ (0 ∷ 0 ∷ []) ∷ []))
      (empty_response ∷ [])
unfolding deliver parse_response ◌>>=◌
run_events-chunked_example =
    run_events-chunked board open_client (0x11 ∷ 0 ∷ []) ((0 ∷ 0 ∷ []) ∷ []) 4 0
      (empty_response ∷ []) open_client-Fits refl (omega arith, (omega arith, tt)) (omega arith)
      (omega arith) refl

abbrev no_event_group : InitEnv
no_event_group = record init_works { event_group_ok = false }

attempt_balanced_example : attempt no_event_group late_connection app_config heap ≡ fault
attempt_balanced_example = attempt_balanced no_event_group late_connection app_config heap refl
