-- ===== src/Desktop/SendQueue.antt =====
-- The send queue of doubao_c_version/client.c: `client_send_raw`, the case
-- LWS_CALLBACK_CLIENT_WRITEABLE of `lws_callback`, and the loop at the end of `client_destroy`. Each
-- holds `send_mutex` throughout, so the threads' calls follow one another.
pub mod Fifo
pub mod Refine
use esp32s3_box3_doubao.Common.{
  ℕ, ◌+◌, ◌%◌, Bool, true, false, not, Option, none, some, List, [], ◌∷◌, set, get_elem?, Exec, ok,
  fault, ◌>>=◌, ◌==◌, if◌then◌else◌,
}

abbrev pub queue_size : ℕ
queue_size = 64

-- A slot is the frame that `data` points to, LWS_PRE bytes in, or `none` for NULL.
pub record SendQueue : Type 0 where
  pub slots : List (Option (List ℕ))
  pub send_head : ℕ
  pub send_tail : ℕ

abbrev pub next_index : ℕ → ℕ
next_index i = (i + 1) % queue_size

-- Whether the function returns 0. `room` is the success of `malloc`.
unfoldable pub client_send_raw : Bool → SendQueue → List ℕ → Bool × SendQueue
client_send_raw room q frame =
    let next_tail = next_index q.send_tail in
    if next_tail == q.send_head
    then (false, q)
    else if not room
    then (false, q)
    else (true, record q { slots = set q.slots q.send_tail (some frame); send_tail = next_tail })

-- What one call of the callback did: the frame written, whether another call is asked for, and
-- whether the callback ends the connection by returning -1.
pub record Written : Type 0 where
  pub queue : SendQueue
  pub frame : Option (List ℕ)
  pub again : Bool
  pub closes : Bool

-- `msg->data` of the slot at an index; a null pointer or an index out of range is a fault.
unfoldable pub slot_at : SendQueue → ℕ → Exec (List ℕ)
slot_at q i = elim (get_elem? q.slots i) [
  | none ↦ fault
  | some slot ↦ elim slot [ none ↦ fault | some frame ↦ ok frame ]
]

unfoldable pub take_slot : SendQueue → SendQueue
take_slot q = record q { slots = set q.slots q.send_head none; send_head = next_index q.send_head }

-- `lws_write` says of a frame whether it returns no negative number.
unfoldable pub writeable : (List ℕ → Bool) → SendQueue → Exec Written
unfolding slot_at take_slot
writeable lws_write q =
    if q.send_head == q.send_tail
    then ok (record { queue = q; frame = none; again = false; closes = false })
    else do
      frame ← slot_at q q.send_head
      let rest = take_slot q
      ok (record {
        queue = rest;
        frame = some frame;
        again = if lws_write frame then not (rest.send_head == rest.send_tail) else false;
        closes = not (lws_write frame);
      })
