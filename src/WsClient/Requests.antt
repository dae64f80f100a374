-- ===== src/WsClient/Requests.antt =====
-- `send_command` and the commands of main/doubao_ws_client.c.
pub mod Laws
use esp32s3_box3_doubao.Common.{
  ℕ, Bool, true, false, not, ◌&&◌, ◌==◌, Option, none, some, List, [], ◌∷◌, take, if◌then◌else◌,
}
use esp32s3_box3_doubao.Common.Text.{utf8}
use esp32s3_box3_doubao.Protocol.Constants.{
  msg_client_full_request, msg_client_audio_only, flag_msg_with_event, serial_none, serial_json,
  compress_none, compress_gzip, cmd_start_connection, cmd_finish_connection, cmd_start_session,
  cmd_finish_session, cmd_task_request, cmd_say_hello,
}
use esp32s3_box3_doubao.Protocol.Platform.{Platform}
use esp32s3_box3_doubao.WsClient.State.{WsClient}
use esp32s3_box3_doubao.WsClient.Command.{build_command}
use esp32s3_box3_doubao.WsClient.SessionJson.{build_start_session_json}

-- Whether the function returns 0, and the frames handed to the transport on the way.
abbrev pub Sent : Type 0
Sent = Bool × List (List ℕ)

-- The transport: whether `esp_websocket_client_send_bin` of a frame returns no negative number.
abbrev pub Transport : Type 0
Transport = List ℕ → Bool

unfoldable pub send_command : Transport → WsClient → Option (List ℕ × ℕ) → Sent
send_command send_bin client none = (false, [])
send_command send_bin client (some (buf, msg_len)) =
    if not client.connected
    then (false, [])
    else (send_bin (take msg_len buf), take msg_len buf ∷ [])

abbrev pub empty_object : List ℕ
empty_object = utf8 "{}"

abbrev pub hello : List ℕ
hello = utf8 "{\"content\":\"我在。\"}"

abbrev same_bytes : List ℕ → List ℕ → Bool
same_bytes [] [] = true
same_bytes (x ∷ xs) (y ∷ ys) = x == y && same_bytes xs ys
same_bytes _ _ = false

module _ (P : Platform) (send_bin : Transport) (client : WsClient) where
  unfoldable pub doubao_ws_start_connection : Sent
  unfolding send_command
  doubao_ws_start_connection = send_command send_bin client (
      build_command P msg_client_full_request flag_msg_with_event serial_json compress_gzip
        cmd_start_connection none (some empty_object) false)

  unfoldable pub doubao_ws_start_session : Sent
  unfolding send_command
  doubao_ws_start_session = send_command send_bin client (
      build_command P msg_client_full_request flag_msg_with_event serial_json compress_gzip
        cmd_start_session (some client.session_id)
        (some (build_start_session_json 2048 client.config)) true)

  unfoldable pub doubao_ws_say_hello : Sent
  unfolding send_command
  doubao_ws_say_hello = send_command send_bin client (
      build_command P msg_client_full_request flag_msg_with_event serial_json compress_gzip
        cmd_say_hello (some client.session_id) (some hello) true)

  -- `strcmp(client->config.asr_audio_format, "ogg_opus") == 0`, for a format that is there.
  use_opus : Bool
  use_opus = elim client.config.asr_audio_format [
    | none ↦ false
    | some format ↦ same_bytes format (utf8 "ogg_opus")
  ]

  unfoldable pub doubao_ws_send_audio : List ℕ → Sent
  unfolding send_command use_opus
  doubao_ws_send_audio audio_data = send_command send_bin client (
      build_command P msg_client_audio_only flag_msg_with_event serial_none
        (if use_opus then compress_none else compress_gzip) cmd_task_request
        (some client.session_id) (some audio_data) true)

  unfoldable pub doubao_ws_finish_session : Sent
  unfolding send_command
  doubao_ws_finish_session = send_command send_bin client (
      build_command P msg_client_full_request flag_msg_with_event serial_json compress_gzip
        cmd_finish_session (some client.session_id) (some empty_object) true)

  unfoldable pub doubao_ws_finish_connection : Sent
  unfolding send_command
  doubao_ws_finish_connection = send_command send_bin client (
      build_command P msg_client_full_request flag_msg_with_event serial_json compress_gzip
        cmd_finish_connection none (some empty_object) false)
