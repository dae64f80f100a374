-- ===== src/Desktop/Audio/Queue/Refine.antt =====
-- The linked list behaves as the queue of chunks, and no node is lost or used once it is freed.
use esp32s3_box3_doubao.Common.{
  ℕ, suc, ◌+◌, ◌≡◌, refl, sym, ap, ◌∙◌, Bool, false, Option, none, some, List, [], ◌∷◌, ◌++◌,
  length, length-append, arith, Exec, ok, ◌>>=◌, ◌==◌, Bool-cases, inl, inr,
}
use esp32s3_box3_doubao.Desktop.Audio.Queue.{
  Nodes, write, link, queue_push, Play, Op, push, pop, play, clear, step,
}
use esp32s3_box3_doubao.Desktop.Audio.Queue.Fifo
use esp32s3_box3_doubao.Desktop.Audio.Queue.Fifo.{Chunks, pop_chunk, played}
use esp32s3_box3_doubao.Desktop.Audio.Queue.Shape.{
  Entry, node, Apart, Chain, write_same, write_other, Chain-write, unused-Apart, Apart-snoc,
  Apart-unsnoc, last-Apart, eq_flip, last_of-snoc, Chain-snoc, load_lem,
}
use esp32s3_box3_doubao.Desktop.Audio.Queue.Sound.{
  IsPlaying, Config, state_of, view_of, IsSound, IsFresh, Simulates, chunks_of-snoc, config,
  pop-Simulates, play-Simulates, clear-Simulates,
}

-- A node that is written where nothing is in use leaves the player's node.
pushed_IsPlaying :
    (h h' : Nodes) (b : ℕ) (x : List ℕ) (playing : Option ℕ) (current : Option (List ℕ))
    (es : List Entry)
    → h b ≡ none
    → ((a : ℕ) → (a == b) ≡ false → Apart a es → h' a ≡ h a)
    → IsPlaying h es playing current
    → IsPlaying h' (es ++ ((b, x) ∷ [])) playing current
pushed_IsPlaying h h' b x none none es fresh kept held = tt
pushed_IsPlaying h h' b x none (some y) es fresh kept held = absurd held
pushed_IsPlaying h h' b x (some c) none es fresh kept held = absurd held
pushed_IsPlaying h h' b x (some c) (some y) es fresh kept ((next, at), alone) =
    let differs : (c == b) ≡ false = elim (Bool-cases (c == b)) [
      | inl same ↦ absurd cc (sym at ∙ ap h (ground arith) ∙ fresh)
      | inr d ↦ d
    ] in
    ((next, kept c differs alone ∙ at), Apart-snoc c b x es (ground arith) alone)

-- What a push has done, whether the queue was empty or not.
linked_behind :
    (h h' : Nodes) (b : ℕ) (x : List ℕ) (s : Bool) (playing : Option ℕ) (current : Option (List ℕ))
    (es : List Entry)
    → h b ≡ none
    → Chain h' (es ++ ((b, x) ∷ []))
    → ((a : ℕ) → (a == b) ≡ false → Apart a es → h' a ≡ h a)
    → IsSound (config s h playing current es)
    → IsSound (config s h' playing current (es ++ ((b, x) ∷ [])))
linked_behind h h' b x s playing current es fresh chain kept v = record {
  linked = chain;
  held = pushed_IsPlaying h h' b x playing current es fresh kept v.held;
  no_leak = λ a apart other.
      let (differs, outside) = Apart-unsnoc a b x es apart in
      kept a differs outside ∙ v.no_leak a outside other;
}

push-Simulates :
    (room : Option ℕ) (x : List ℕ) (s : Bool) (h : Nodes) (playing : Option ℕ)
    (current : Option (List ℕ)) (es : List Entry)
    → IsFresh (push room x) h
    → IsSound (config s h playing current es)
    → Simulates (push room x) (config s h playing current es)
unfolding step queue_push link Fifo.step ◌>>=◌
push-Simulates none x s h playing current es fresh v =
    (config s h playing current es, refl, refl, v)
push-Simulates (some b) x s h playing current [] fresh v = (
  config s (write h b (node x none)) playing current ((b, x) ∷ []),
  refl,
  refl,
  linked_behind h (write h b (node x none)) b x s playing current [] fresh
      (write_same h b (node x none), tt, tt)
      (λ a differs apart. write_other h b (node x none) a differs) v,
)
push-Simulates (some b) x s h playing current (e ∷ es) fresh v =
    let h1 : Nodes = write h b (node x none) in
    let alone : Apart b (e ∷ es) = unused-Apart h b (e ∷ es) fresh v.linked in
    let (t, n, last, at, chain) =
      Chain-snoc h1 b x e es (Chain-write h b (node x none) (e ∷ es) alone v.linked) alone
        (write_same h b (node x none)) in
    let one_more : suc (length es) + 1 ≡ suc (length es + 1) = omega arith in
    (
      config s (write h1 t (some (record n { next = some b }))) playing current
          ((e ∷ es) ++ ((b, x) ∷ [])),
      rw
          (
            last,
            load_lem h1 t n at,
            last_of-snoc b x (e ∷ es),
            length-append es ((b, x) ∷ []),
            one_more,
          )
          refl,
      ap (λ w. record { audible = s; current = current; waiting = w })
          (sym (chunks_of-snoc b x (e ∷ es))),
      linked_behind h (write h1 t (some (record n { next = some b }))) b x s playing current
          (e ∷ es) fresh chain
          (λ a differs apart.
            write_other h1 t _ a (eq_flip t a (last-Apart a t (e ∷ es) last apart))
            ∙ write_other h b (node x none) a differs)
          v,
    )

step-Simulates : (op : Op) (g : Config) → IsFresh op g.nodes → IsSound g → Simulates op g
step-Simulates (push room x) g fresh v =
    push-Simulates room x g.stream g.nodes g.playing g.current g.entries fresh v
step-Simulates pop g fresh v = pop-Simulates g.stream g.nodes g.playing g.current g.entries v
step-Simulates play g fresh v = play-Simulates g.stream g.nodes g.playing g.current g.entries v
step-Simulates clear g fresh v = clear-Simulates g.stream g.nodes g.playing g.current g.entries v

-- A sequence of steps, with all that is played.
unfoldable pub run : List Op → Play → Exec (List (List ℕ) × Play)
run [] s = ok ([], s)
run (op ∷ ops) s = do (out, s') ← step op s; (rest, end) ← run ops s'; ok (out ++ rest, end)

abbrev pub ideal_run : List Op → Chunks → List (List ℕ)
ideal_run [] c = []
ideal_run (op ∷ ops) c = let (out, c') = Fifo.step op c in out ++ ideal_run ops c'

-- Each address that `malloc` gives is not in use when it is given.
abbrev pub IsFreshRun : List Op → Play → Type 0
IsFreshRun [] s = Unit
IsFreshRun (op ∷ ops) s =
    IsFresh op s.nodes
    × ((out : List (List ℕ)) (s' : Play) → step op s ≡ ok (out, s') → IsFreshRun ops s')

-- With memory or without, in every order of the threads' calls, what is played is what the queue of
-- chunks would play; no freed node is read or freed again, and in the end, as before, the nodes in
-- use are those of the queue and the one that the player holds.
pub run_plays :
    (ops : List Op) (g : Config)
    → IsFreshRun ops (state_of g)
    → IsSound g
    → (g' : Config) × (run ops (state_of g) ≡ ok (ideal_run ops (view_of g), state_of g'))
      × IsSound g'
unfolding run ◌>>=◌
run_plays [] g fresh v = (g, refl, v)
run_plays (op ∷ ops) g (fresh, later) v =
    let (g', e, seen, v') = step-Simulates op g fresh v in
    let (end, e', v'') = run_plays ops g' (later _ (state_of g') e) v' in
    (end, rw (e, e', seen) refl, v'')
