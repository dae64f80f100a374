-- ===== src/Desktop/Audio/Queue/Sound.antt =====
-- The nodes in use against the queue of chunks, and the steps that take nodes away.
use esp32s3_box3_doubao.Common.{
  ℕ, suc, ◌+◌, ◌-◌, ◌≡◌, ◌≢◌, refl, ap, ◌∙◌, Bool, false, Option, none, some, List, [], ◌∷◌, ◌++◌,
  length, arith, ok, ◌>>=◌, ◌==◌, Bool-cases, inl, inr,
}
use esp32s3_box3_doubao.Desktop.Audio.Queue.{
  Nodes, write, free_node, queue_pop, queue_clear, tail_after, Play, Op, push, pop, play, clear,
  finish_node, pop_node, step,
}
use esp32s3_box3_doubao.Desktop.Audio.Queue.Fifo
use esp32s3_box3_doubao.Desktop.Audio.Queue.Fifo.{Chunks, pop_chunk, played}
use esp32s3_box3_doubao.Desktop.Audio.Queue.Shape.{
  Entry, node, first_of, last_of, Apart, Chain, write_same_at, write_other, Chain-write, load_lem,
  free_all_lem,
}

abbrev pub chunks_of : List Entry → List (List ℕ)
chunks_of [] = []
chunks_of ((_, bytes) ∷ es) = bytes ∷ chunks_of es

-- The player holds a node that is in use and not in the queue, or none.
abbrev pub IsPlaying : Nodes → List Entry → Option ℕ → Option (List ℕ) → Type 0
IsPlaying h es none none = Unit
IsPlaying h es (some b) (some bytes) = ((next : Option ℕ) × (h b ≡ node bytes next)) × Apart b es
IsPlaying h es none (some _) = ⊥
IsPlaying h es (some _) none = ⊥

-- The nodes of the queue in order, and the player's node with its data.
pub record Config : Type 0 where
  pub stream : Bool
  pub nodes : Nodes
  pub playing : Option ℕ
  pub current : Option (List ℕ)
  pub entries : List Entry

abbrev pub state_of : Config → Play
state_of g = record {
  output_stream = g.stream;
  queue = record { head = first_of g.entries; tail = last_of g.entries; count = length g.entries };
  nodes = g.nodes;
  playing = g.playing;
}

abbrev pub view_of : Config → Chunks
view_of g = record { audible = g.stream; current = g.current; waiting = chunks_of g.entries }

-- Every node in use is in the queue or held by the player.
pub record IsSound (g : Config) : Type 0 where
  pub linked : Chain g.nodes g.entries
  pub held : IsPlaying g.nodes g.entries g.playing g.current
  pub no_leak : (a : ℕ) → Apart a g.entries → g.playing ≢ some a → g.nodes a ≡ none

-- A new node is one that is not in use.
abbrev pub IsFresh : Op → Nodes → Type 0
IsFresh (push (some b) bytes) h = h b ≡ none
IsFresh (push none bytes) h = Unit
IsFresh pop h = Unit
IsFresh play h = Unit
IsFresh clear h = Unit

abbrev pub Simulates : Op → Config → Type 0
Simulates op g =
    (g' : Config) × (step op (state_of g) ≡ ok ((Fifo.step op (view_of g)).0, state_of g'))
    × ((Fifo.step op (view_of g)).1 ≡ view_of g')
    × IsSound g'

pub chunks_of-snoc :
    (b : ℕ) (bytes : List ℕ) (es : List Entry)
    → chunks_of (es ++ ((b, bytes) ∷ [])) ≡ chunks_of es ++ (bytes ∷ [])
chunks_of-snoc b bytes [] = refl
chunks_of-snoc b bytes ((c, x) ∷ es) = ap (λ l. x ∷ l) (chunks_of-snoc b bytes es)

tail_after_lem :
    (b : ℕ) (bytes : List ℕ) (es : List Entry)
    → tail_after (first_of es) (last_of ((b, bytes) ∷ es)) ≡ last_of es
tail_after_lem b bytes [] = refl
tail_after_lem b bytes (e ∷ es) = refl

abbrev pub config : Bool → Nodes → Option ℕ → Option (List ℕ) → List Entry → Config
config stream h playing current entries = record {
  stream = stream;
  nodes = h;
  playing = playing;
  current = current;
  entries = entries;
}

same_node-false : (a b : ℕ) → (a == b) ≡ false → some b ≢ some a
same_node-false a b differs e =
    let same : b ≡ a = ap (λ o. elim o [ none ↦ b | some x ↦ x ]) e in absurd (ground arith)

differs_of : (a b : ℕ) → some b ≢ some a → (b == a) ≡ false
differs_of a b other = elim (Bool-cases (b == a)) [
  | inl same ↦ absurd (other (ap some (ground arith)))
  | inr differs ↦ differs
]

pop_first :
    (s : Bool) (h : Nodes) (b : ℕ) (x : List ℕ) (es : List Entry)
    → IsSound (config s h none none ((b, x) ∷ es))
    → Simulates pop (config s h none none ((b, x) ∷ es))
unfolding step pop_node queue_pop Fifo.step ◌>>=◌
pop_first s h b x es v =
    let (at, alone, chain) = v.linked in
    let fewer : suc (length es) - 1 ≡ length es = omega arith in
    (
      config s h (some b) (some x) es,
      rw (load_lem h b (record { bytes = x; next = first_of es }) at, tail_after_lem b x es, fewer)
          refl,
      refl,
      record {
        linked = chain;
        held = ((first_of es, at), alone);
        no_leak = λ a apart other. v.no_leak a (differs_of a b other, apart) (λ e. absurd cc);
      },
    )

pub pop-Simulates :
    (s : Bool) (h : Nodes) (playing : Option ℕ) (current : Option (List ℕ)) (es : List Entry)
    → IsSound (config s h playing current es)
    → Simulates pop (config s h playing current es)
unfolding step pop_node queue_pop Fifo.step ◌>>=◌
pop-Simulates s h (some b) (some x) es v = (config s h (some b) (some x) es, refl, refl, v)
pop-Simulates s h (some b) none es v = absurd v.held
pop-Simulates s h none (some x) es v = absurd v.held
pop-Simulates s h none none [] v = (config s h none none [], refl, refl, v)
pop-Simulates s h none none ((b, x) ∷ es) v = pop_first s h b x es v

pub play-Simulates :
    (s : Bool) (h : Nodes) (playing : Option ℕ) (current : Option (List ℕ)) (es : List Entry)
    → IsSound (config s h playing current es)
    → Simulates play (config s h playing current es)
unfolding step finish_node free_node Fifo.step ◌>>=◌
play-Simulates s h none none es v = (config s h none none es, refl, refl, v)
play-Simulates s h (some b) none es v = absurd v.held
play-Simulates s h none (some x) es v = absurd v.held
play-Simulates s h (some b) (some x) es v =
    let ((next, at), alone) = v.held in
    (
      config s (write h b none) none none es,
      rw (load_lem h b (record { bytes = x; next = next }) at) refl,
      refl,
      record {
        linked = Chain-write h b none es alone v.linked;
        held = tt;
        no_leak = λ a apart other. elim (Bool-cases (a == b)) [
          | inl same ↦ write_same_at h b none a (ground arith)
          | inr differs ↦
              write_other h b none a differs ∙ v.no_leak a apart (same_node-false a b differs)
        ];
      },
    )

cleared_IsPlaying :
    (h h' : Nodes) (playing : Option ℕ) (current : Option (List ℕ)) (es : List Entry)
    → ((a : ℕ) → Apart a es → h' a ≡ h a)
    → IsPlaying h es playing current
    → IsPlaying h' [] playing current
cleared_IsPlaying h h' none none es kept held = tt
cleared_IsPlaying h h' none (some x) es kept held = absurd held
cleared_IsPlaying h h' (some b) none es kept held = absurd held
cleared_IsPlaying h h' (some b) (some x) es kept ((next, at), alone) =
    ((next, kept b alone ∙ at), tt)

pub clear-Simulates :
    (s : Bool) (h : Nodes) (playing : Option ℕ) (current : Option (List ℕ)) (es : List Entry)
    → IsSound (config s h playing current es)
    → Simulates clear (config s h playing current es)
unfolding step queue_clear Fifo.step ◌>>=◌
clear-Simulates s h playing current es v =
    let (h', e, kept, gone) = free_all_lem (length es + 1) h es (omega arith) v.linked in
    (
      config s h' playing current [],
      rw e refl,
      refl,
      record {
        linked = tt;
        held = cleared_IsPlaying h h' playing current es kept v.held;
        no_leak = λ a apart other. elim (gone a) [
          | inl outside ↦ kept a outside ∙ v.no_leak a outside other
          | inr freed ↦ freed
        ];
      },
    )
