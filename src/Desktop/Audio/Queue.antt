-- ===== src/Desktop/Audio/Queue.antt =====
-- The play queue of doubao_c_version/audio.c, a linked list of nodes, and the player that takes from
-- it. A function holds the queue's mutex while it changes the queue, so the calls of the threads
-- follow one another; of `queue_pop`, the part behind the wait is meant.
pub mod Fifo
pub mod Shape
pub mod Sound
pub mod Refine
use esp32s3_box3_doubao.Common.{
  ℕ, zero, suc, ◌+◌, ◌-◌, Bool, true, false, Option, none, some, List, [], ◌∷◌, Exec, ok, fault,
  ◌>>=◌, ◌==◌, if◌then◌else◌,
}

-- A node and the block that its `data` points to, which are allocated and freed together.
pub record Node : Type 0 where
  pub bytes : List ℕ
  pub next : Option ℕ

abbrev pub Nodes : Type 0
Nodes = ℕ → Option Node

unfoldable pub write : Nodes → ℕ → Option Node → Nodes
write h b cell a = if a == b then cell else h a

-- `*node`, a fault where there is no node in use.
unfoldable pub load : Nodes → ℕ → Exec Node
load h b = elim (h b) [ none ↦ fault | some n ↦ ok n ]

-- `free(node->data); free(node);`
unfoldable pub free_node : Nodes → ℕ → Exec Nodes
unfolding load
free_node h b = do n ← load h b; ok (write h b none)

pub record AudioQueue : Type 0 where
  pub head : Option ℕ
  pub tail : Option ℕ
  pub count : ℕ

abbrev pub empty : AudioQueue
empty = record { head = none; tail = none; count = 0 }

-- `q->tail->next = node` or `q->head = node`.
unfoldable pub link : AudioQueue → Nodes → ℕ → Exec (Option ℕ × Nodes)
unfolding load
link q h b = elim q.tail [
  | none ↦ ok (some b, h)
  | some t ↦ do n ← load h t; ok (q.head, write h t (some (record n { next = some b })))
]

-- The first argument is the address of the new node; `none` is a `malloc` that fails, of the node or
-- of its data, and then nothing remains of it.
unfoldable pub queue_push : Option ℕ → List ℕ → AudioQueue → Nodes → Exec (AudioQueue × Nodes)
unfolding link
queue_push none bytes q h = ok (q, h)
queue_push (some b) bytes q h = do
  (head', h') ← link q (write h b (some (record { bytes = bytes; next = none }))) b
  ok (record { head = head'; tail = some b; count = q.count + 1 }, h')

abbrev tail_after : Option ℕ → Option ℕ → Option ℕ
tail_after none tail = none
tail_after (some _) tail = tail

unfoldable pub queue_pop : AudioQueue → Nodes → Exec (Option ℕ × AudioQueue)
unfolding load
queue_pop q h = elim q.head [
  | none ↦ ok (none, q)
  | some b ↦ do
    n ← load h b
    ok (some b, record { head = n.next; tail = tail_after n.next q.tail; count = q.count - 1 })
]

-- The loop of `queue_clear`; out of fuel it counts as a fault.
unfoldable pub free_all : ℕ → Option ℕ → Nodes → Exec Nodes
unfolding load
free_all fuel none h = ok h
free_all zero (some b) h = fault
free_all (suc fuel) (some b) h = do n ← load h b; free_all fuel n.next (write h b none)

-- `queue_clear`, and all of `queue_destroy` but the end of its mutex and condition.
unfoldable pub queue_clear : ℕ → AudioQueue → Nodes → Exec (AudioQueue × Nodes)
queue_clear fuel q h = do freed ← free_all fuel q.head h; ok (empty, freed)

-- The threads: the queue, its nodes, and the node that the player has popped and not freed yet.
-- `output_stream` says that the pointer is not NULL.
pub record Play : Type 0 where
  pub output_stream : Bool
  pub queue : AudioQueue
  pub nodes : Nodes
  pub playing : Option ℕ

-- What the threads do: `audio_enqueue`, with what `malloc` gives; a round of `player_thread_func` in
-- two steps, the pop and the writing and freeing of what was popped; `audio_queue_clear`.
pub data Op : Type 0 where
  push : Option ℕ → List ℕ → Op
  pop play clear : Op

-- `Pa_WriteStream` of the node's data.
unfoldable pub finish_node : Play → Exec (List (List ℕ) × Play)
unfolding free_node
finish_node s = elim s.playing [
  | none ↦ ok ([], s)
  | some b ↦ do
    n ← load s.nodes b
    freed ← free_node s.nodes b
    ok (if s.output_stream then n.bytes ∷ [] else [], record s { nodes = freed; playing = none })
]

-- The player pops again only when it is done with a node.
unfoldable pub pop_node : Play → Exec (List (List ℕ) × Play)
pop_node s = elim s.playing [
  | some b ↦ ok ([], s)
  | none ↦ do (node, q) ← queue_pop s.queue s.nodes; ok ([], record s { queue = q; playing = node })
]

-- What is written to the output stream, and the new state.
unfoldable pub step : Op → Play → Exec (List (List ℕ) × Play)
step (push room bytes) s = do
  (q, h) ← queue_push room bytes s.queue s.nodes
  ok ([], record s { queue = q; nodes = h })
step pop s = pop_node s
step play s = finish_node s
step clear s = do
  (q, h) ← queue_clear (s.queue.count + 1) s.queue s.nodes
  ok ([], record s { queue = q; nodes = h })
