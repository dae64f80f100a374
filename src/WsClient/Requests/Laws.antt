-- ===== src/WsClient/Requests/Laws.antt =====
-- What the commands put on the wire.
use esp32s3_box3_doubao.Common.{
  ℕ, ◌≡◌, true, Option, none, some, List, [], ◌∷◌, take_all, length, arith,
}
use esp32s3_box3_doubao.Protocol.Constants.{
  msg_client_full_request, msg_client_audio_only, flag_msg_with_event, serial_none, serial_json,
  cmd_start_connection, cmd_finish_connection, cmd_start_session, cmd_finish_session,
  cmd_task_request, cmd_say_hello,
}
use esp32s3_box3_doubao.Protocol.Platform.{Platform}
use esp32s3_box3_doubao.WsClient.State.{WsClient}
use esp32s3_box3_doubao.WsClient.Command.{build_command}
use esp32s3_box3_doubao.WsClient.Command.Layout.{
  Command, IsCommand, HasRoom, layout, has_session, build_command-layout,
}
use esp32s3_box3_doubao.WsClient.SessionJson.{build_start_session_json}
use esp32s3_box3_doubao.WsClient.Requests.{
  Sent, Transport, send_command, empty_object, hello, doubao_ws_start_connection,
  doubao_ws_start_session, doubao_ws_say_hello, doubao_ws_send_audio, doubao_ws_finish_session,
  doubao_ws_finish_connection,
}

-- The requests of the client, and the command that each stands for.
pub data Request : Type 0 where
  start_connection start_session say_hello finish_session finish_connection : Request
  send_audio : List ℕ → Request

abbrev full_request : ℕ → Option (List ℕ) → List ℕ → Command
full_request cmd_id session payload = record {
  msg_type = msg_client_full_request;
  flags = flag_msg_with_event;
  serial = serial_json;
  cmd_id = cmd_id;
  session = session;
  payload = payload;
}

abbrev pub command_of : WsClient → Request → Command
command_of client start_connection = full_request cmd_start_connection none empty_object
command_of client start_session =
    full_request cmd_start_session (some client.session_id)
      (build_start_session_json 2048 client.config)
command_of client say_hello = full_request cmd_say_hello (some client.session_id) hello
command_of client finish_session =
    full_request cmd_finish_session (some client.session_id) empty_object
command_of client finish_connection = full_request cmd_finish_connection none empty_object
command_of client (send_audio audio_data) = record {
  msg_type = msg_client_audio_only;
  flags = flag_msg_with_event;
  serial = serial_none;
  cmd_id = cmd_task_request;
  session = some client.session_id;
  payload = audio_data;
}

abbrev pub perform : Platform → Transport → WsClient → Request → Sent
perform P send_bin client start_connection = doubao_ws_start_connection P send_bin client
perform P send_bin client start_session = doubao_ws_start_session P send_bin client
perform P send_bin client say_hello = doubao_ws_say_hello P send_bin client
perform P send_bin client finish_session = doubao_ws_finish_session P send_bin client
perform P send_bin client finish_connection = doubao_ws_finish_connection P send_bin client
perform P send_bin client (send_audio audio_data) =
    doubao_ws_send_audio P send_bin client audio_data

send_command-layout :
    (P : Platform) (send_bin : Transport) (client : WsClient) (compress : ℕ) (c : Command)
    → client.connected ≡ true
    → IsCommand c
    → HasRoom P c
    → send_command send_bin client (
        build_command P c.msg_type c.flags c.serial compress c.cmd_id c.session
          (some c.payload)
          (has_session c.session))
      ≡ (send_bin (layout c), layout c ∷ [])
unfolding send_command
send_command-layout P send_bin client compress c up v room = rw (
  build_command-layout P compress c v room,
  up,
  take_all (length (layout c)) (layout c) (omega arith),
)

-- On an open connection, given memory for the payload and the frame and a command whose fields fit,
-- every request sends one frame, the layout of its command, and reports what the transport reports.
pub perform-layout :
    (P : Platform) (send_bin : Transport) (client : WsClient) (request : Request)
    → client.connected ≡ true
    → IsCommand (command_of client request)
    → HasRoom P (command_of client request)
    → let frame = layout (command_of client request) in
      perform P send_bin client request ≡ (send_bin frame, frame ∷ [])
unfolding doubao_ws_start_connection doubao_ws_start_session doubao_ws_say_hello
    doubao_ws_finish_session doubao_ws_finish_connection doubao_ws_send_audio
perform-layout P send_bin client start_connection up v room =
    send_command-layout P send_bin client _ (command_of client start_connection) up v room
perform-layout P send_bin client start_session up v room =
    send_command-layout P send_bin client _ (command_of client start_session) up v room
perform-layout P send_bin client say_hello up v room =
    send_command-layout P send_bin client _ (command_of client say_hello) up v room
perform-layout P send_bin client finish_session up v room =
    send_command-layout P send_bin client _ (command_of client finish_session) up v room
perform-layout P send_bin client finish_connection up v room =
    send_command-layout P send_bin client _ (command_of client finish_connection) up v room
perform-layout P send_bin client (send_audio audio_data) up v room =
    send_command-layout P send_bin client _ (command_of client (send_audio audio_data)) up v room
