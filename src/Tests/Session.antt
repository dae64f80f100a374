-- ===== src/Tests/Session.antt =====
-- The history of a session of the desktop client at concrete messages.
use esp32s3_box3_doubao.Common.{refl, true, false, List, ℕ, [], ◌∷◌, arith, ◌>>=◌}
use esp32s3_box3_doubao.Desktop.Response.{
  parse_response, parse_message, parse_sequence, parse_event, parse_session_id, take_word,
  parse_payload, unpack,
}
use esp32s3_box3_doubao.Protocol.Wire.{read_u32_be}
use esp32s3_box3_doubao.Desktop.Session.{Session}
use esp32s3_box3_doubao.Desktop.Session.Heard.{Said, speech, barge_in, nothing, receive_all}
use esp32s3_box3_doubao.Desktop.Session.History.{Became, IsPlaying, receive_all-Became}
use esp32s3_box3_doubao.Tests.Fixtures.{
  small_blocks, paging_codec, fresh_manager, fresh_manager-IsSaving,
}

abbrev listening : Session
listening = record {
  audio = fresh_manager;
  has_audio = true;
  running = true;
  session_finished = false;
  user_querying = false;
  say_hello_done = false;
}

listening-IsPlaying : IsPlaying listening
listening-IsPlaying = record { has_audio = refl; ready = refl; saving = fresh_manager-IsSaving }

-- A binary ACK with the payload "Og", event 450, and a message that is too short.
abbrev messages : List (List ℕ)
messages =
    (0x11 ∷ 0xb0 ∷ 0 ∷ 0 ∷ 0 ∷ 0 ∷ 0 ∷ 0 ∷ 0 ∷ 0 ∷ 0 ∷ 2 ∷ 79 ∷ 103 ∷ [])
    ∷ (0x11 ∷ 0x94 ∷ 0x10 ∷ 0 ∷ 0 ∷ 0 ∷ 1 ∷ 0xc2 ∷ 0 ∷ 0 ∷ 0 ∷ 0 ∷ 0 ∷ 0 ∷ 0 ∷ 0 ∷ [])
    ∷ (1 ∷ [])
    ∷ []

abbrev words : List Said
words = speech (79 ∷ 103 ∷ []) ∷ barge_in ∷ nothing ∷ []

receive_all-Became_example :
    Became small_blocks paging_codec
      (receive_all small_blocks paging_codec 1 messages listening)
      listening
      words
unfolding parse_response ◌>>=◌ parse_message parse_sequence parse_event parse_session_id take_word
    read_u32_be parse_payload unpack
receive_all-Became_example =
    receive_all-Became small_blocks paging_codec 1 messages words listening (λ n e. ground arith)
      listening-IsPlaying (refl, (refl, (refl, tt))) (omega arith, (tt, (tt, tt)))
