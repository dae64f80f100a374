-- ===== src/Desktop/Session.antt =====
-- `on_ws_receive` of doubao_c_version/main.c, in the thread that serves libwebsockets.
pub mod Heard
pub mod History
use esp32s3_box3_doubao.Common.{
  ℕ, Bool, true, false, not, ◌&&◌, ◌||◌, Option, none, some, List, [], ◌∷◌, ◌++◌, Exec, ok, fail,
  fault, ◌>>=◌, ◌==◌, if◌then◌else◌,
}
use esp32s3_box3_doubao.Protocol.Constants.{
  msg_server_full_response, msg_server_ack, msg_server_error, event_tts_ended, event_clear_cache,
  event_user_query_end, event_session_finish_1, event_session_finish_2,
}
use esp32s3_box3_doubao.Protocol.Response.{Response}
use esp32s3_box3_doubao.Opus.{Codec}
use esp32s3_box3_doubao.Desktop.Host.{Host}
use esp32s3_box3_doubao.Desktop.Response.{parse_response}
use esp32s3_box3_doubao.Desktop.Audio.Decode.{Manager, audio_decode_ogg_opus, audio_reset_ogg_state}

-- `session_t`, without the client and the settings. `audio` is the part that decodes.
pub record Session : Type 0 where
  pub audio : Manager
  pub has_audio : Bool
  pub running : Bool
  pub session_finished : Bool
  pub user_querying : Bool
  pub say_hello_done : Bool

-- A call of `queue_push` or `queue_clear` on the play queue, or of `pthread_cond_signal` on
-- `hello_cond`.
pub data Action : Type 0 where
  enqueue : List ℕ → Action
  clear_queue signal_hello : Action

abbrev pub enqueue_all : List (List ℕ) → List Action
enqueue_all [] = []
enqueue_all (pcm ∷ rest) = enqueue pcm ∷ enqueue_all rest

module _ (H : Host) (C : Codec) where
  unfoldable pub receive_audio : List ℕ → Session → Exec (Session × List Action)
  receive_audio bytes s =
      if s.has_audio
      then (do
        (audio', out) ← audio_decode_ogg_opus C H s.audio bytes
        ok (record s { audio = audio' }, enqueue_all out))
      else ok (s, [])

  unfoldable pub clear_cache : Session → Session × List Action
  clear_cache s =
      if s.has_audio
      then (
        record s { audio = audio_reset_ogg_state C s.audio; user_querying = true },
        clear_queue ∷ [],
      )
      else (record s { user_querying = true }, [])

  unfoldable pub tts_ended : Session → Session × List Action
  tts_ended s =
      if not s.say_hello_done
      then (record s { say_hello_done = true }, signal_hello ∷ [])
      else (s, [])

  -- The `switch`.
  unfoldable pub on_event : ℕ → Session → Session × List Action
  on_event event s =
      if event == event_clear_cache
      then clear_cache s
      else if event == event_user_query_end
      then (record s { user_querying = false }, [])
      else if event == event_tts_ended
      then tts_ended s
      else if event == event_session_finish_1 || event == event_session_finish_2
      then (record s { session_finished = true }, [])
      else (s, [])

  -- The payload of an ACK, if it is binary and there is one.
  abbrev pub audio_of : Response → Option (List ℕ)
  audio_of resp = if resp.is_binary then resp.payload_data else none

  unfoldable pub receive_ack : Option (List ℕ) → Session → Exec (Session × List Action)
  receive_ack none s = ok (s, [])
  receive_ack (some bytes) s = receive_audio bytes s

  unfoldable pub on_response : Response → Session → Exec (Session × List Action)
  on_response resp s =
      if resp.message_type == msg_server_ack
      then receive_ack (audio_of resp) s
      else if resp.message_type == msg_server_full_response
      then ok (if resp.has_event then on_event resp.event s else (s, []))
      else if resp.message_type == msg_server_error
      then ok (record s { running = false }, [])
      else ok (s, [])

  -- A message that cannot be parsed is left aside.
  unfoldable pub after_parse : Exec Response → Session → Exec (Session × List Action)
  after_parse fault s = fault
  after_parse fail s = ok (s, [])
  after_parse (ok resp) s = on_response resp s

  unfoldable pub on_ws_receive : ℕ → List ℕ → Session → Exec (Session × List Action)
  on_ws_receive fuel bytes s = after_parse (parse_response H fuel bytes) s
