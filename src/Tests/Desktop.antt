-- ===== src/Tests/Desktop.antt =====
-- The theorems of the desktop client at concrete inputs.
use esp32s3_box3_doubao.Common.{
  ℕ, take, ◌==◌, ◌≤◌, ◌⊎◌, if◌then◌else◌, ℕ, ◌≡◌, refl, inl, inr, true, false, none, some, List, [],
  ◌∷◌, length, replicate, drop, arith, ok, fault, ◌>>=◌, ltb, ◌<◌, Bool-cases,
}
use esp32s3_box3_doubao.Common.Text.{utf8}
use esp32s3_box3_doubao.Protocol.Constants.{compress_none}
use esp32s3_box3_doubao.Protocol.Response
use esp32s3_box3_doubao.WsClient.Command.Layout.{Command}
use esp32s3_box3_doubao.Desktop.Host.{Host, Inflated, stream_end, okay, other}
use esp32s3_box3_doubao.Desktop.Gzip.{gzip_decompress}
use esp32s3_box3_doubao.Desktop.Gzip.Total.{Inflates, gzip_decompress_total}
use esp32s3_box3_doubao.Desktop.Response.{parse_response}
use esp32s3_box3_doubao.Desktop.Response.Agreement.{IsPlain, parse_response-agrees}
use esp32s3_box3_doubao.Desktop.SendQueue.{SendQueue}
use esp32s3_box3_doubao.Desktop.SendQueue.Fifo
use esp32s3_box3_doubao.Desktop.SendQueue.Fifo.{send, writable}
use esp32s3_box3_doubao.Desktop.SendQueue.Refine.{Holds, run, run_refines}
use esp32s3_box3_doubao.Desktop.Send
use esp32s3_box3_doubao.Desktop.State.{Client, Lws}
use esp32s3_box3_doubao.Desktop.Callback.Wakeup.{Session, sends, here, more, IsAwake, Reach-IsAwake}
use esp32s3_box3_doubao.Desktop.Callback.Reassembly.{
  receive_all, IsReady, Delivers, receive_all-Delivers, receive_all_hole,
}
use esp32s3_box3_doubao.Desktop.Command.{build_command, pack_payload}
use esp32s3_box3_doubao.Desktop.Command.Layout.{layout, IsCommand, build_command-packed_layout}
use esp32s3_box3_doubao.Desktop.Requests.Laws.{
  task_request, command_of, perform, Queues, perform-Queues,
}
use esp32s3_box3_doubao.Desktop.Lifecycle.Laws.{attempt, main_attempt_balanced}
use esp32s3_box3_doubao.Tests.Fixtures.{desk, board, heap}

-- A format of one stored block: the byte 120, and the bytes themselves. Any other state is refused.
abbrev stored_inflate : List ℕ → ℕ → Inflated
stored_inflate [] n = record { ret = other; out = []; strm = [] }
stored_inflate (mark ∷ body) n =
    if mark == 120
    then (if ltb n (length body)
        then record { ret = okay; out = take n body; strm = mark ∷ drop n body }
        else record { ret = stream_end; out = body; strm = mark ∷ [] })
    else record { ret = other; out = []; strm = mark ∷ body }

abbrev stored_desk : Host
stored_desk = record desk { inflate = stored_inflate }

abbrev IsStored : List ℕ → Type 0
IsStored [] = ⊥
IsStored (mark ∷ body) = (mark == 120) ≡ true

stored_desk-Inflates : Inflates stored_desk IsStored (drop 1)
stored_desk-Inflates = record { inflate_step = step }
  where
    step :
        (strm : List ℕ) (n : ℕ)
        → IsStored strm
        → 0 < n
        → ((stored_inflate strm n).ret ≡ stream_end) × ((stored_inflate strm n).out ≡ drop 1 strm)
          ⊎ (((stored_inflate strm n).ret ≡ okay)
              × ((stored_inflate strm n).out ≡ take n (drop 1 strm))
              × (n ≤ length (drop 1 strm))
              × (drop 1 (stored_inflate strm n).strm ≡ drop n (drop 1 strm))
              × IsStored (stored_inflate strm n).strm)
    step [] n good pos = elim good [ ]
    step (mark ∷ body) n good pos = elim (Bool-cases (ltb n (length body))) [
      | inl longer ↦ rw (good, longer) (inr (refl, refl, ground arith, refl, good))
      | inr fits ↦ rw (good, fits) (inl (refl, refl))
    ]

gzip_decompress_total_example :
    gzip_decompress stored_desk 4 (120 ∷ 1 ∷ 2 ∷ 3 ∷ []) ≡ ok (1 ∷ 2 ∷ 3 ∷ [])
gzip_decompress_total_example =
    gzip_decompress_total stored_desk IsStored (drop 1) (120 ∷ 1 ∷ 2 ∷ 3 ∷ []) 4
      stored_desk-Inflates refl (λ n. refl) (λ n. refl) refl (omega arith) (omega arith)
      (omega arith)

abbrev short_message : List ℕ
short_message = 0x11 ∷ 0x90 ∷ 0x10 ∷ 0 ∷ 0 ∷ 0 ∷ 0 ∷ 0 ∷ 0 ∷ 0 ∷ 0 ∷ 2 ∷ 123 ∷ 125 ∷ []

short_message-IsPlain : IsPlain desk 1 board (λ n. refl) (λ n. refl) short_message
short_message-IsPlain b2 e = let same : 0x10 ≡ b2 = cc in ground arith

parse_response-agrees_example :
    parse_response desk 1 short_message ≡ Response.parse_response board short_message
parse_response-agrees_example =
    parse_response-agrees desk 1 board (λ n. refl) (λ n. refl) short_message (omega arith)
      short_message-IsPlain

abbrev empty_queue : SendQueue
empty_queue = record { slots = replicate 64 none; send_head = 63; send_tail = 63 }

empty_queue-Holds : Holds empty_queue []
empty_queue-Holds = record {
  storage = refl;
  head_in = omega arith;
  tail_at = refl;
  few = omega arith;
  occupied = tt;
}

run_refines_example :
    run
      (λ frame. true)
      empty_queue
      (send true (1 ∷ []) ∷ send false (2 ∷ []) ∷ writable ∷ writable ∷ [])
    ≡ ok (
        Fifo.run
          (λ frame. true)
          []
          (send true (1 ∷ []) ∷ send false (2 ∷ []) ∷ writable ∷ writable ∷ []))
run_refines_example =
    run_refines (λ frame. true)
      (send true (1 ∷ []) ∷ send false (2 ∷ []) ∷ writable ∷ writable ∷ []) empty_queue []
      empty_queue-Holds

abbrev pub talker : Client
talker = record {
  app_id = utf8 "id";
  access_key = utf8 "key";
  resource_id = utf8 "volc.speech.dialog";
  app_key = utf8 "app";
  connect_id = 99 ∷ [];
  session_id = 97 ∷ 98 ∷ [];
  input_mod = utf8 "audio";
  asr_audio_format = [];
  use_opus_input = true;
  recv_timeout = 10;
  queue = empty_queue;
  recv_buf = true;
  recv_data = [];
  recv_buf_cap = 4;
  has_recv = true;
  wsi = true;
  wanted = false;
  connected = true;
  running = true;
  logid = [];
}

abbrev pub lws : Lws
lws = record { write = λ frame. true; add_http_header = λ name value. true; hdr_custom = none }

abbrev calm : Session
calm = record { client = talker; broken = false }

calm-IsAwake : IsAwake calm
calm-IsAwake = record { has_wsi = λ up. refl; awaited = λ sound up waiting. absurd cc }

Reach-IsAwake_example : IsAwake (record calm { client = (Send.send_raw true talker (1 ∷ [])).1 })
Reach-IsAwake_example = Reach-IsAwake desk lws (more here (sends true (1 ∷ []))) calm-IsAwake

talker-IsReady : IsReady talker
talker-IsReady = record { buffer = refl; held = omega arith; has_callback = refl }

receive_all-Delivers_example :
    Delivers
      (receive_all desk lws talker (1 ∷ 2 ∷ 3 ∷ []) ((4 ∷ 5 ∷ []) ∷ []))
      (1 ∷ 2 ∷ 3 ∷ 4 ∷ 5 ∷ [])
receive_all-Delivers_example =
    receive_all-Delivers desk lws talker (1 ∷ 2 ∷ 3 ∷ []) ((4 ∷ 5 ∷ []) ∷ []) (λ n. refl)
      talker-IsReady (omega arith)

abbrev no_realloc : Host
no_realloc = record desk { realloc = λ n. false }

receive_all_hole_example :
    Delivers (receive_all no_realloc lws talker (1 ∷ 2 ∷ 3 ∷ 4 ∷ 5 ∷ []) ((6 ∷ []) ∷ [])) (6 ∷ [])
receive_all_hole_example =
    receive_all_hole no_realloc lws talker (1 ∷ 2 ∷ 3 ∷ 4 ∷ 5 ∷ []) (6 ∷ []) (λ n. refl)
      talker-IsReady (omega arith) (omega arith) (omega arith) (omega arith)

abbrev pub opus_command : Command
opus_command = command_of desk true talker (task_request (7 ∷ 8 ∷ []))

pub opus_command-IsCommand : IsCommand compress_none opus_command (7 ∷ 8 ∷ [])
opus_command-IsCommand = record {
  msg_type_fits = omega arith;
  flags_fits = omega arith;
  serial_fits = omega arith;
  compress_fits = omega arith;
  cmd_id_fits = omega arith;
  small = omega arith;
}

build_command-packed_layout_example :
    build_command desk 2 4 0 0 200 (some (97 ∷ 98 ∷ [])) (7 ∷ 8 ∷ []) true
    ≡ ok (layout 0 opus_command (7 ∷ 8 ∷ []), length (layout 0 opus_command (7 ∷ 8 ∷ [])))
unfolding pack_payload ◌>>=◌
build_command-packed_layout_example =
    build_command-packed_layout desk 0 opus_command (7 ∷ 8 ∷ []) (λ n. refl) refl
      opus_command-IsCommand

perform-Queues_example :
    Queues
      (perform desk true talker (task_request (7 ∷ 8 ∷ [])))
      talker
      (layout 0 opus_command (7 ∷ 8 ∷ []) ∷ [])
unfolding pack_payload ◌>>=◌
perform-Queues_example =
    perform-Queues desk talker (task_request (7 ∷ 8 ∷ [])) (7 ∷ 8 ∷ []) [] (λ n. refl)
      empty_queue-Holds (omega arith) refl opus_command-IsCommand

main_attempt_balanced_example : attempt true true false (λ left. (false, true)) heap ≡ fault
main_attempt_balanced_example =
    main_attempt_balanced true true false (λ left. (false, true)) heap refl refl
