-- ===== src/Desktop/SendQueue/Refine.antt =====
-- The ring of 64 slots behaves as the queue of 63 frames.
use esp32s3_box3_doubao.Common.{
  ℕ, ◌+◌, ◌-◌, ◌%◌, ◌≤◌, ◌<◌, ◌≡◌, ◌≢◌, refl, ap, ◌∙◌, Bool, false, not, Option, none, some, List,
  [], ◌∷◌, ◌++◌, length, length-append, length-set, set, get_elem?, get_elem?-set_self,
  get_elem?-set_ne, arith, Exec, ok, ◌>>=◌, ◌==◌, Bool-cases, inl, inr, if◌then◌else◌,
}
use esp32s3_box3_doubao.Desktop.SendQueue.{
  queue_size, SendQueue, next_index, client_send_raw, Written, slot_at, take_slot, writeable,
}
use esp32s3_box3_doubao.Desktop.SendQueue.Fifo
use esp32s3_box3_doubao.Desktop.SendQueue.Fifo.{
  capacity, Op, send, writable, Reply, sent, wrote, is_empty,
}

-- From an index on, going round at 64, the slots hold these frames.
abbrev pub Occupies : List (Option (List ℕ)) → ℕ → List (List ℕ) → Type 0
Occupies slots i [] = Unit
Occupies slots i (frame ∷ frames) =
    (get_elem? slots i ≡ some (some frame)) × Occupies slots (next_index i) frames

pub record Holds (q : SendQueue) (frames : List (List ℕ)) : Type 0 where
  pub storage : length q.slots ≡ queue_size
  pub head_in : q.send_head < queue_size
  pub tail_at : q.send_tail ≡ (q.send_head + length frames) % queue_size
  pub few : length frames ≤ capacity
  pub occupied : Occupies q.slots q.send_head frames

-- A write behind the frames, `d` places from the first, leaves them.
Occupies-set :
    (slots : List (Option (List ℕ))) (h d i : ℕ) (v : Option (List ℕ)) (frames : List (List ℕ))
    → h < queue_size
    → d < queue_size
    → length frames ≤ d
    → i ≡ (h + d) % queue_size
    → Occupies slots h frames
    → Occupies (set slots i v) h frames
Occupies-set slots h d i v [] hh hd few e o = tt
Occupies-set slots h d i v (frame ∷ frames) hh hd few e o = (
  get_elem?-set_ne slots {i = i} {j = h} v (λ same. omega arith) ∙ o.0,
  Occupies-set slots (next_index h) (d - 1) i v frames (omega arith) (omega arith) (omega arith)
      (omega arith) o.1,
)

-- A frame written just behind the others is the last of them.
Occupies-snoc :
    (slots : List (Option (List ℕ))) (h i : ℕ) (frame : List ℕ) (frames : List (List ℕ))
    → length slots ≡ queue_size
    → h < queue_size
    → length frames < queue_size
    → i ≡ (h + length frames) % queue_size
    → Occupies slots h frames
    → Occupies (set slots i (some frame)) h (frames ++ (frame ∷ []))
Occupies-snoc slots h i frame [] s hh few e o = (
  ap (λ k. get_elem? (set slots i (some frame)) k) (omega arith)
      ∙ get_elem?-set_self slots i (some frame) (omega arith),
  tt,
)
Occupies-snoc slots h i frame (f ∷ frames) s hh few e o = (
  get_elem?-set_ne slots {i = i} {j = h} (some frame) (λ same. omega arith) ∙ o.0,
  Occupies-snoc slots (next_index h) i frame frames s (omega arith) (omega arith) (omega arith) o.1,
)

empty_test :
    (q : SendQueue) (frames : List (List ℕ))
    → Holds q frames
    → (q.send_head == q.send_tail) ≡ is_empty frames
empty_test q [] holds = ground (arith, holds.head_in, holds.tail_at)
empty_test q (frame ∷ frames) holds = ground (arith, holds.head_in, holds.tail_at, holds.few)

full_test :
    (q : SendQueue) (frames : List (List ℕ))
    → Holds q frames
    → (next_index q.send_tail == q.send_head) ≡ (length frames == capacity)
full_test q frames holds = ground (arith, holds.head_in, holds.tail_at, holds.few)

Holds-snoc :
    (q : SendQueue) (frames : List (List ℕ)) (frame : List ℕ)
    → Holds q frames
    → length frames ≢ capacity
    → Holds
        (record q {
          slots = set q.slots q.send_tail (some frame);
          send_tail = next_index q.send_tail;
        })
        (frames ++ (frame ∷ []))
Holds-snoc q frames frame holds free = record {
  storage = length-set q.slots q.send_tail (some frame) ∙ holds.storage;
  head_in = holds.head_in;
  tail_at = omega (arith, holds.tail_at, length-append frames (frame ∷ []));
  few = omega (arith, holds.few, length-append frames (frame ∷ []));
  occupied =
      Occupies-snoc q.slots q.send_head q.send_tail frame frames holds.storage holds.head_in
        (omega (arith, holds.few)) holds.tail_at holds.occupied;
}

pub client_send_raw_refines :
    (room : Bool) (q : SendQueue) (frames : List (List ℕ)) (frame : List ℕ)
    → Holds q frames
    → ((client_send_raw room q frame).0 ≡ (Fifo.push room frames frame).0)
      × Holds (client_send_raw room q frame).1 (Fifo.push room frames frame).1
unfolding client_send_raw Fifo.push
client_send_raw_refines room q frames frame holds = elim (Bool-cases (length frames == capacity)) [
  | inl full ↦ rw (full_test q frames holds, full) (refl, holds)
  | inr free ↦ elim (Bool-cases room) [
    | inl given ↦
        rw (full_test q frames holds, free, given)
          (refl, Holds-snoc q frames frame holds (ground arith))
    | inr refused ↦ rw (full_test q frames holds, free, refused) (refl, holds)
  ]
]

take_slot-Holds :
    (q : SendQueue) (frame : List ℕ) (frames : List (List ℕ))
    → Holds q (frame ∷ frames)
    → Holds (take_slot q) frames
unfolding take_slot
take_slot-Holds q frame frames holds = record {
  storage = length-set q.slots q.send_head none ∙ holds.storage;
  head_in = omega arith;
  tail_at = omega (arith, holds.tail_at, holds.head_in);
  few = omega (arith, holds.few);
  occupied =
      Occupies-set q.slots (next_index q.send_head) 63 q.send_head none frames (omega arith)
        (omega arith) (omega (arith, holds.few)) (omega (arith, holds.head_in)) holds.occupied.1;
}

slot_at-some :
    (q : SendQueue) (i : ℕ) (frame : List ℕ)
    → get_elem? q.slots i ≡ some (some frame)
    → slot_at q i ≡ ok frame
unfolding slot_at
slot_at-some q i frame e = rw (slot_at, e)

-- What one call of the callback shows.
abbrev pub reply_of : Written → Reply
reply_of w = wrote w.frame w.again w.closes

pub writeable_refines :
    (lws_write : List ℕ → Bool) (q : SendQueue) (frames : List (List ℕ))
    → Holds q frames
    → (w : Written) × (writeable lws_write q ≡ ok w)
      × (reply_of w ≡ (Fifo.pop lws_write frames).0)
      × Holds w.queue (Fifo.pop lws_write frames).1
unfolding writeable Fifo.pop ◌>>=◌
writeable_refines lws_write q [] holds = (
  record { queue = q; frame = none; again = false; closes = false },
  rw (empty_test q [] holds) refl,
  refl,
  holds,
)
writeable_refines lws_write q (frame ∷ frames) holds = (
  record {
    queue = take_slot q;
    frame = some frame;
    again =
        if lws_write frame then not ((take_slot q).send_head == (take_slot q).send_tail) else false;
    closes = not (lws_write frame);
  },
  rw (empty_test q (frame ∷ frames) holds, slot_at-some q q.send_head frame holds.occupied.0) refl,
  rw (empty_test (take_slot q) frames (take_slot-Holds q frame frames holds)) refl,
  take_slot-Holds q frame frames holds,
)

-- Calls in order, with what each shows.
unfoldable pub run : (List ℕ → Bool) → SendQueue → List Op → Exec (List Reply)
run lws_write q [] = ok []
run lws_write q (send room frame ∷ ops) = do
  let (done, q') = client_send_raw room q frame
  replies ← run lws_write q' ops
  ok (sent done ∷ replies)
run lws_write q (writable ∷ ops) = do
  w ← writeable lws_write q
  replies ← run lws_write w.queue ops
  ok (reply_of w ∷ replies)

-- Whatever the threads queue and whenever the socket is writable, the ring of 64 slots answers like
-- a first-in first-out queue of 63 frames: no call touches a slot that holds no frame, a frame is
-- refused only when 63 are queued or memory is short, and each is written once, in order.
pub run_refines :
    (lws_write : List ℕ → Bool) (ops : List Op) (q : SendQueue) (frames : List (List ℕ))
    → Holds q frames
    → run lws_write q ops ≡ ok (Fifo.run lws_write frames ops)
unfolding run Fifo.run ◌>>=◌
run_refines lws_write [] q frames holds = refl
run_refines lws_write (send room frame ∷ ops) q frames holds =
    let (same, holds') = client_send_raw_refines room q frames frame holds in
    rw
      (
        run_refines lws_write ops (client_send_raw room q frame).1 (Fifo.push room frames frame).1
            holds',
        same,
      )
      refl
run_refines lws_write (writable ∷ ops) q frames holds =
    let (w, e, same, holds') = writeable_refines lws_write q frames holds in
    rw (e, run_refines lws_write ops w.queue (Fifo.pop lws_write frames).1 holds', same) refl
