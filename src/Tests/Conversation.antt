-- ===== src/Tests/Conversation.antt =====
-- A conversation of the desktop client: a frame is queued already, a thread asks for audio to be sent,
-- and the socket becomes writable.
use esp32s3_box3_doubao.Common.{refl, none, some, List, [], ◌∷◌, ◌++◌, replicate, arith, ◌>>=◌}
use esp32s3_box3_doubao.Desktop.State.{Client}
use esp32s3_box3_doubao.Desktop.SendQueue.{SendQueue}
use esp32s3_box3_doubao.Desktop.SendQueue.Refine.{Holds}
use esp32s3_box3_doubao.Desktop.Command.{pack_payload}
use esp32s3_box3_doubao.Desktop.Command.Layout.{layout}
use esp32s3_box3_doubao.Desktop.Conversation.{Act, ask, writable, run, Delivers, run-Delivers}
use esp32s3_box3_doubao.Common.Text.{utf8}
use esp32s3_box3_doubao.Desktop.Requests.Laws.{task_request}
use esp32s3_box3_doubao.Desktop.Program.{Options, default_options, settle}
use esp32s3_box3_doubao.Tests.Fixtures.{desk}
use esp32s3_box3_doubao.Tests.Desktop.{talker, lws, opus_command, opus_command-IsCommand}

abbrev one_queued : SendQueue
one_queued = record {
  slots = replicate 63 none ++ (some (1 ∷ []) ∷ []);
  send_head = 63;
  send_tail = 0;
}

one_queued-Holds : Holds one_queued ((1 ∷ []) ∷ [])
one_queued-Holds = record {
  storage = refl;
  head_in = omega arith;
  tail_at = refl;
  few = omega arith;
  occupied = (refl, tt);
}

abbrev busy : Client
busy = record talker { queue = one_queued }

abbrev acts : List Act
acts = ask (task_request (7 ∷ 8 ∷ [])) ∷ writable ∷ []

run-Delivers_example :
    Delivers (run desk lws acts busy) busy ((1 ∷ []) ∷ layout 0 opus_command (7 ∷ 8 ∷ []) ∷ []) 1
unfolding pack_payload ◌>>=◌
run-Delivers_example =
    run-Delivers desk lws acts busy ((1 ∷ []) ∷ []) (layout 0 opus_command (7 ∷ 8 ∷ []) ∷ [])
      (λ n. refl) one_queued-Holds (((7 ∷ 8 ∷ []), refl, opus_command-IsCommand, refl), tt)
      (omega arith, tt)

abbrev from_file : Options
from_file = settle (record default_options { audio_file = utf8 "a.wav"; recv_timeout = 500 })
