-- ===== src/Protocol/Constants.antt =====
-- The numbers of main/doubao_protocol.h.
use esp32s3_box3_doubao.Common.{ℕ}

abbrev pub protocol_version : ℕ
protocol_version = 0x01

abbrev pub default_header_size : ℕ
default_header_size = 0x01

abbrev pub msg_client_full_request : ℕ
msg_client_full_request = 0x01

abbrev pub msg_client_audio_only : ℕ
msg_client_audio_only = 0x02

abbrev pub msg_server_full_response : ℕ
msg_server_full_response = 0x09

abbrev pub msg_server_ack : ℕ
msg_server_ack = 0x0B

abbrev pub msg_server_error : ℕ
msg_server_error = 0x0F

abbrev pub flag_neg_sequence : ℕ
flag_neg_sequence = 0x02

abbrev pub flag_msg_with_event : ℕ
flag_msg_with_event = 0x04

abbrev pub serial_none : ℕ
serial_none = 0x00

abbrev pub serial_json : ℕ
serial_json = 0x01

abbrev pub compress_none : ℕ
compress_none = 0x00

abbrev pub compress_gzip : ℕ
compress_gzip = 0x01

abbrev pub cmd_start_connection : ℕ
cmd_start_connection = 1

abbrev pub cmd_finish_connection : ℕ
cmd_finish_connection = 2

abbrev pub cmd_start_session : ℕ
cmd_start_session = 100

abbrev pub cmd_finish_session : ℕ
cmd_finish_session = 102

abbrev pub cmd_task_request : ℕ
cmd_task_request = 200

abbrev pub cmd_say_hello : ℕ
cmd_say_hello = 300

abbrev pub cmd_chat_text_query : ℕ
cmd_chat_text_query = 501

abbrev pub event_tts_ended : ℕ
event_tts_ended = 359

abbrev pub event_clear_cache : ℕ
event_clear_cache = 450

abbrev pub event_user_query_end : ℕ
event_user_query_end = 459

abbrev pub event_session_finish_1 : ℕ
event_session_finish_1 = 152

abbrev pub event_session_finish_2 : ℕ
event_session_finish_2 = 153
