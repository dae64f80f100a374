-- ===== src/Desktop/SendQueue/Fifo.antt =====
-- What the queue promises: a first-in first-out queue of 63 frames.
use esp32s3_box3_doubao.Common.{
  ℕ, Bool, true, false, not, Option, none, some, List, [], ◌∷◌, ◌++◌, length, ◌==◌, if◌then◌else◌,
}

abbrev pub capacity : ℕ
capacity = 63

-- A thread queues a frame, given memory or not, or the socket becomes writable.
pub data Op : Type 0 where
  send : Bool → List ℕ → Op
  writable : Op

-- What is seen from outside: the result of a send, or the frame written, whether another call was
-- asked for and whether the connection is to be closed.
pub data Reply : Type 0 where
  sent : Bool → Reply
  wrote : Option (List ℕ) → Bool → Bool → Reply

abbrev pub is_empty : List (List ℕ) → Bool
is_empty [] = true
is_empty (_ ∷ _) = false

unfoldable pub push : Bool → List (List ℕ) → List ℕ → Bool × List (List ℕ)
push room frames frame =
    if length frames == capacity
    then (false, frames)
    else if not room
    then (false, frames)
    else (true, frames ++ (frame ∷ []))

-- A failed write still takes the frame out, and asks for no further call.
unfoldable pub pop : (List ℕ → Bool) → List (List ℕ) → Reply × List (List ℕ)
pop lws_write [] = (wrote none false false, [])
pop lws_write (frame ∷ frames) = (
  wrote (some frame) (if lws_write frame then not (is_empty frames) else false)
      (not (lws_write frame)),
  frames,
)

unfoldable pub run : (List ℕ → Bool) → List (List ℕ) → List Op → List Reply
run lws_write frames [] = []
run lws_write frames (send room frame ∷ ops) =
    let (done, frames') = push room frames frame in sent done ∷ run lws_write frames' ops
run lws_write frames (writable ∷ ops) =
    let (reply, frames') = pop lws_write frames in reply ∷ run lws_write frames' ops
