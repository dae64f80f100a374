-- ===== src/Desktop/Requests.antt =====
-- The commands of doubao_c_version/client.c.
pub mod Laws
use esp32s3_box3_doubao.Common.{
  ℕ, Bool, true, false, Option, none, some, List, [], ◌++◌, length, ltb, Exec, if◌then◌else◌,
}
use esp32s3_box3_doubao.Common.Text.{utf8, snprintf}
use esp32s3_box3_doubao.Protocol.Constants.{
  msg_client_full_request, msg_client_audio_only, flag_msg_with_event, serial_none, serial_json,
  compress_none, compress_gzip, cmd_start_connection, cmd_finish_connection, cmd_start_session,
  cmd_finish_session, cmd_task_request, cmd_say_hello, cmd_chat_text_query,
}
use esp32s3_box3_doubao.Desktop.Host.{Host}
use esp32s3_box3_doubao.Desktop.State.{Client}
use esp32s3_box3_doubao.Desktop.Send.{send_command}
use esp32s3_box3_doubao.Desktop.Command.{build_command}
use esp32s3_box3_doubao.Desktop.SessionJson.{build_start_session_json}

abbrev pub empty_object : List ℕ
empty_object = utf8 "{}"

abbrev pub hello : List ℕ
hello = utf8 "{\"content\":\"你好，我是豆包，有什么可以帮助你的？\"}"

-- The payload of a text query, in an array of 4096 bytes; the text is put in as it is.
unfoldable pub query_payload : List ℕ → List ℕ
query_payload content = snprintf 4096 (utf8 "{\"content\":\"" ++ (content ++ utf8 "\"}"))

-- `room` is the success of the `malloc` in `client_send_raw`.
module _ (H : Host) (room : Bool) (client : Client) where
  unfoldable pub client_start_connection : Exec (Bool × Client)
  client_start_connection = send_command room client (
      build_command H msg_client_full_request flag_msg_with_event serial_json compress_gzip
        cmd_start_connection none empty_object false)

  asr_format : Option (List ℕ)
  asr_format = if ltb 0 (length client.asr_audio_format) then some client.asr_audio_format else none

  unfoldable pub session_json : List ℕ
  unfolding asr_format
  session_json = build_start_session_json asr_format client.input_mod client.recv_timeout

  unfoldable pub client_start_session : Exec (Bool × Client)
  client_start_session = send_command room client (
      build_command H msg_client_full_request flag_msg_with_event serial_json compress_gzip
        cmd_start_session (some client.session_id) session_json true)

  unfoldable pub client_say_hello : Exec (Bool × Client)
  client_say_hello = send_command room client (
      build_command H msg_client_full_request flag_msg_with_event serial_json compress_gzip
        cmd_say_hello (some client.session_id) hello true)

  unfoldable pub client_task_request : List ℕ → Exec (Bool × Client)
  client_task_request audio = send_command room client (
      build_command H msg_client_audio_only flag_msg_with_event serial_none
        (if client.use_opus_input then compress_none else compress_gzip) cmd_task_request
        (some client.session_id) audio true)

  unfoldable pub client_chat_text_query : List ℕ → Exec (Bool × Client)
  client_chat_text_query content = send_command room client (
      build_command H msg_client_full_request flag_msg_with_event serial_json compress_gzip
        cmd_chat_text_query (some client.session_id) (query_payload content) true)

  unfoldable pub client_finish_session : Exec (Bool × Client)
  client_finish_session = send_command room client (
      build_command H msg_client_full_request flag_msg_with_event serial_json compress_gzip
        cmd_finish_session (some client.session_id) empty_object true)

  unfoldable pub client_finish_connection : Exec (Bool × Client)
  client_finish_connection = send_command room client (
      build_command H msg_client_full_request flag_msg_with_event serial_json compress_gzip
        cmd_finish_connection none empty_object false)
