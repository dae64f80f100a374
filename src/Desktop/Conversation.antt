-- ===== src/Desktop/Conversation.antt =====
-- What goes over the connection of the desktop client: requests of its threads, and the writable
-- callbacks in between.
use mathlib.Core.Path.{subst}
use esp32s3_box3_doubao.Common.{
  ◌-◌, ◌<◌, ℕ, ◌+◌, ◌≡◌, refl, sym, ap, ◌∙◌, Bool, true, Option, none, some, List, [], ◌∷◌, ◌++◌,
  append_assoc, append-nil, length, length-append, arith, Exec, ok, ◌>>=◌,
}
use esp32s3_box3_doubao.Desktop.Host.{Host}
use esp32s3_box3_doubao.Desktop.State.{Client, Lws}
use esp32s3_box3_doubao.Desktop.SendQueue.{SendQueue}
use esp32s3_box3_doubao.Desktop.SendQueue.Fifo
use esp32s3_box3_doubao.Desktop.SendQueue.Fifo.{Reply, sent, wrote}
use esp32s3_box3_doubao.Desktop.SendQueue.Refine.{Holds, writeable_refines}
use esp32s3_box3_doubao.Desktop.Callback.{writeable_now, after_write, lws_callback}
use esp32s3_box3_doubao.Desktop.Requests.{session_json}
use esp32s3_box3_doubao.Desktop.Command.{pack_payload}
use esp32s3_box3_doubao.Desktop.Command.Layout.{layout, IsCommand}
use esp32s3_box3_doubao.Desktop.Requests.Laws.{
  Request, start_connection, start_session, say_hello, finish_session, finish_connection,
  task_request, chat_text_query, command_of, compression_of, perform, perform-Queues,
}

pub data Act : Type 0 where
  ask : Request → Act
  writable : Act

abbrev written_in : Option (List ℕ) → List (List ℕ)
written_in none = []
written_in (some frame) = frame ∷ []

-- The acts in order, with the frames that are written.
unfoldable pub run : Host → Lws → List Act → Client → Exec (List (List ℕ) × Client)
run H L [] client = ok ([], client)
run H L (ask request ∷ acts) client = do
  (done, client') ← perform H true client request
  run H L acts client'
run H L (writable ∷ acts) client = do
  called ← lws_callback H L client writeable_now
  (rest, end) ← run H L acts called.client
  ok (written_in called.frame ++ rest, end)

-- The frames that the requests of a client ask for, one for each.
abbrev IsFrame : Host → Client → Request → List ℕ → Type 0
IsFrame H client request frame =
    let compress = compression_of H true client request in
    let c = command_of H true client request in
    (packed : List ℕ) × (pack_payload H compress c.payload ≡ ok packed)
    × IsCommand compress c packed
    × (frame ≡ layout compress c packed)

abbrev AreFrames : Host → Client → List Act → List (List ℕ) → Type 0
AreFrames H client [] [] = Unit
AreFrames H client [] (_ ∷ _) = ⊥
AreFrames H client (ask request ∷ acts) (frame ∷ frames) =
    IsFrame H client request frame × AreFrames H client acts frames
AreFrames H client (ask request ∷ acts) [] = ⊥
AreFrames H client (writable ∷ acts) frames = AreFrames H client acts frames

-- The client with another queue.
abbrev queued : Client → SendQueue → Bool → Client
queued client q wanted = record client { queue = q; wanted = wanted }

-- What a client asks for does not depend on its queue.
IsFrame-queued :
    (H : Host) (client : Client) (q : SendQueue) (wanted : Bool)
    → (request : Request) (frame : List ℕ) → IsFrame H client request frame
    → IsFrame H (queued client q wanted) request frame
unfolding session_json
IsFrame-queued H client q wanted start_connection frame f = f
IsFrame-queued H client q wanted start_session frame f = f
IsFrame-queued H client q wanted say_hello frame f = f
IsFrame-queued H client q wanted finish_session frame f = f
IsFrame-queued H client q wanted finish_connection frame f = f
IsFrame-queued H client q wanted (task_request _) frame f = f
IsFrame-queued H client q wanted (chat_text_query _) frame f = f

AreFrames-queued :
    (H : Host) (client : Client) (q : SendQueue) (wanted : Bool)
    → (acts : List Act) (frames : List (List ℕ)) → AreFrames H client acts frames
    → AreFrames H (queued client q wanted) acts frames
AreFrames-queued H client q wanted [] [] f = f
AreFrames-queued H client q wanted [] (_ ∷ frames) f = elim f [ ]
AreFrames-queued H client q wanted (ask request ∷ acts) [] f = elim f [ ]
AreFrames-queued H client q wanted (ask request ∷ acts) (frame ∷ frames) (f, fs) = (
  IsFrame-queued H client q wanted request frame f,
  AreFrames-queued H client q wanted acts frames fs,
)
AreFrames-queued H client q wanted (writable ∷ acts) frames f =
    AreFrames-queued H client q wanted acts frames f

written_by : Reply → List (List ℕ)
written_by (sent _) = []
written_by (wrote frame _ _) = written_in frame

-- What is written and what stays make up what was there.
pop-written :
    (lws_write : List ℕ → Bool) (frames : List (List ℕ))
    → written_by (Fifo.pop lws_write frames).0 ++ (Fifo.pop lws_write frames).1 ≡ frames
unfolding Fifo.pop written_by
pop-written lws_write [] = refl
pop-written lws_write (frame ∷ frames) = refl

length-pop :
    (lws_write : List ℕ → Bool) (frames : List (List ℕ))
    → length (Fifo.pop lws_write frames).1 ≡ length frames - 1
unfolding Fifo.pop
length-pop lws_write [] = refl
length-pop lws_write (frame ∷ frames) = omega arith

-- How many frames are queued after the acts, each of which is done.
abbrev queued_after : ℕ → List Act → ℕ
queued_after n [] = n
queued_after n (ask _ ∷ acts) = queued_after (n + 1) acts
queued_after n (writable ∷ acts) = queued_after (n - 1) acts

-- Each request finds room in the queue.
abbrev pub HasRoom : ℕ → List Act → Type 0
HasRoom n [] = Unit
HasRoom n (ask _ ∷ acts) = (n < Fifo.capacity) × HasRoom (n + 1) acts
HasRoom n (writable ∷ acts) = HasRoom (n - 1) acts

-- The acts run to the end; what is written, and then what the queue holds, are the frames `all`, the
-- last `left` of them in the queue, and nothing but the queue and the wish for a callback is changed.
abbrev pub Delivers : Exec (List (List ℕ) × Client) → Client → List (List ℕ) → ℕ → Type 0
Delivers r client all left =
    (written : List (List ℕ)) × (end : Client) × (rest : List (List ℕ)) × (r ≡ ok (written, end))
    × Holds end.queue rest
    × (written ++ rest ≡ all)
    × (length rest ≡ left)
    × (end ≡ queued client end.queue end.wanted)

-- Given memory, room in the queue for each request when it comes, and packed payloads that fit,
-- however the requests and the writable callbacks are interleaved: the acts run to the end; the frames
-- handed to `lws_write`, followed by those still queued, are exactly those queued before and then the
-- layout of each request, in the order of the requests; as many are still queued as there were, with
-- one more for each request and one less, if there is any, for each callback; and the client is
-- changed in nothing but its queue and its wish for a callback.
pub run-Delivers :
    (H : Host) (L : Lws) (acts : List Act) (client : Client) (frames asked : List (List ℕ))
    → ((n : ℕ) → H.malloc n ≡ true)
    → Holds client.queue frames
    → AreFrames H client acts asked
    → HasRoom (length frames) acts
    → Delivers (run H L acts client) client (frames ++ asked) (queued_after (length frames) acts)
unfolding run lws_callback ◌>>=◌ written_by
run-Delivers H L [] client frames [] memory holds f room =
    ([], client, frames, refl, holds, sym (append-nil frames), refl, refl)
run-Delivers H L [] client frames (_ ∷ _) memory holds f room = elim f [ ]
run-Delivers H L (ask request ∷ acts) client frames [] memory holds f room = elim f [ ]
run-Delivers H L (ask request ∷ acts) client frames (frame ∷ asked) memory holds f room =
    let (packed, e, v, laid) = f.0 in
    let longer : length (frames ++ (frame ∷ [])) ≡ length frames + 1 =
      length-append frames (frame ∷ []) in
    let (after, done, holds', _, same) =
      perform-Queues H client request packed frames memory holds room.0 e v in
    let (written, end, rest, ran, holds'', glued, counted, same') =
      run-Delivers H L acts after (frames ++ (frame ∷ [])) asked memory
        (subst (λ x. Holds after.queue (frames ++ (x ∷ []))) (sym laid) holds')
        (subst (λ c. AreFrames H c acts asked) (sym same)
          (AreFrames-queued H client after.queue after.wanted acts asked f.1))
        (subst (λ n. HasRoom n acts) (sym longer) room.1) in
    (
      written,
      end,
      rest,
      rw (done, ran) refl,
      holds'',
      glued ∙ append_assoc frames (frame ∷ []) asked,
      counted ∙ ap (λ n. queued_after n acts) longer,
      same' ∙ ap (λ c. queued c end.queue end.wanted) same,
    )
run-Delivers H L (writable ∷ acts) client frames asked memory holds f room =
    let (w, e, same, holds') = writeable_refines L.write client.queue frames holds in
    let left : List (List ℕ) = (Fifo.pop L.write frames).1 in
    let shorter : length left ≡ length frames - 1 = length-pop L.write frames in
    let (written, end, rest, ran, holds'', glued, counted, same') =
      run-Delivers H L acts (after_write client w).client left asked memory holds'
        (AreFrames-queued H client w.queue w.again acts asked f)
        (subst (λ n. HasRoom n acts) (sym shorter) room) in
    (
      written_in w.frame ++ written,
      end,
      rest,
      rw (e, ran) refl,
      holds'',
      append_assoc (written_in w.frame) written rest
          ∙ ap (λ x. written_in w.frame ++ x) glued
          ∙ sym (append_assoc (written_in w.frame) left asked)
          ∙ ap (λ x. x ++ asked) (ap (λ r. written_by r ++ left) same ∙ pop-written L.write frames),
      counted ∙ ap (λ n. queued_after n acts) shorter,
      same',
    )
