-- ===== src/Desktop/Audio/Queue/Shape.antt =====
-- The nodes of a queue against the chunks that it holds.
use esp32s3_box3_doubao.Common.{
  ℕ, zero, suc, ◌≤◌, ◌≡◌, refl, sym, ap, ◌∙◌, true, false, Option, none, some, List, [], ◌∷◌, ◌++◌,
  length, arith, ok, ◌>>=◌, ◌==◌, Bool-cases, inl, inr, ◌⊎◌,
}
use esp32s3_box3_doubao.Desktop.Audio.Queue.{Node, Nodes, write, load, free_all}

-- A node in the queue: its address and its data.
abbrev pub Entry : Type 0
Entry = ℕ × List ℕ

abbrev pub node : List ℕ → Option ℕ → Option Node
node bytes next = some (record { bytes = bytes; next = next })

abbrev pub first_of : List Entry → Option ℕ
first_of [] = none
first_of ((b, _) ∷ _) = some b

abbrev pub last_of : List Entry → Option ℕ
last_of [] = none
last_of ((b, _) ∷ []) = some b
last_of (_ ∷ e ∷ es) = last_of (e ∷ es)

abbrev pub Apart : ℕ → List Entry → Type 0
Apart a [] = Unit
Apart a ((b, _) ∷ es) = ((b == a) ≡ false) × Apart a es

-- Each node in turn points to the next one, and the last one to none.
abbrev pub Chain : Nodes → List Entry → Type 0
Chain h [] = Unit
Chain h ((b, bytes) ∷ es) = (h b ≡ node bytes (first_of es)) × Apart b es × Chain h es

pub eq_flip : (a b : ℕ) → (a == b) ≡ false → (b == a) ≡ false
eq_flip a b e = ground arith

pub write_same : (h : Nodes) (b : ℕ) (cell : Option Node) → write h b cell b ≡ cell
unfolding write
write_same h b cell = ground arith

pub write_same_at :
    (h : Nodes) (b : ℕ) (cell : Option Node) (a : ℕ) → (b == a) ≡ true → write h b cell a ≡ cell
unfolding write
write_same_at h b cell a e = ground arith

pub write_other :
    (h : Nodes) (b : ℕ) (cell : Option Node) (a : ℕ) → (a == b) ≡ false → write h b cell a ≡ h a
unfolding write
write_other h b cell a e = rw e refl

pub Chain-write :
    (h : Nodes) (b : ℕ) (cell : Option Node) (es : List Entry)
    → Apart b es
    → Chain h es
    → Chain (write h b cell) es
Chain-write h b cell [] apart chain = tt
Chain-write h b cell ((c, bytes) ∷ es) (differs, apart) (at, alone, chain) =
    (write_other h b cell c differs ∙ at, alone, Chain-write h b cell es apart chain)

-- What is not in use is apart from the nodes.
pub unused-Apart : (h : Nodes) (b : ℕ) (es : List Entry) → h b ≡ none → Chain h es → Apart b es
unused-Apart h b [] unused chain = tt
unused-Apart h b ((c, bytes) ∷ es) unused (at, alone, chain) = (
  elim (Bool-cases (c == b)) [
    | inl same ↦ absurd cc (sym at ∙ ap h (ground arith) ∙ unused)
    | inr differs ↦ differs
  ],
  unused-Apart h b es unused chain,
)

pub Apart-snoc :
    (a b : ℕ) (bytes : List ℕ) (es : List Entry)
    → (b == a) ≡ false
    → Apart a es
    → Apart a (es ++ ((b, bytes) ∷ []))
Apart-snoc a b bytes [] differs apart = (differs, tt)
Apart-snoc a b bytes ((c, _) ∷ es) differs (d, apart) = (d, Apart-snoc a b bytes es differs apart)

pub Apart-unsnoc :
    (a b : ℕ) (bytes : List ℕ) (es : List Entry)
    → Apart a (es ++ ((b, bytes) ∷ []))
    → ((a == b) ≡ false) × Apart a es
Apart-unsnoc a b bytes [] (differs, apart) = (eq_flip b a differs, tt)
Apart-unsnoc a b bytes ((c, _) ∷ es) (d, apart) =
    let (differs, outside) = Apart-unsnoc a b bytes es apart in (differs, (d, outside))

pub last-Apart : (a t : ℕ) (es : List Entry) → last_of es ≡ some t → Apart a es → (t == a) ≡ false
last-Apart a t [] e apart = absurd cc
last-Apart a t ((c, _) ∷ []) e (d, apart) = ground arith
last-Apart a t (_ ∷ e2 ∷ es) e (d, apart) = last-Apart a t (e2 ∷ es) e apart

pub last_of-snoc :
    (b : ℕ) (bytes : List ℕ) (es : List Entry) → last_of (es ++ ((b, bytes) ∷ [])) ≡ some b
last_of-snoc b bytes [] = refl
last_of-snoc b bytes (e ∷ []) = refl
last_of-snoc b bytes (e ∷ e2 ∷ es) = last_of-snoc b bytes (e2 ∷ es)

-- The last of a chain, made to point to a new node, extends the chain by it.
pub Chain-snoc :
    (h : Nodes) (b : ℕ) (bytes : List ℕ) (e : Entry) (es : List Entry)
    → Chain h (e ∷ es)
    → Apart b (e ∷ es)
    → h b ≡ node bytes none
    → (t : ℕ) × (n : Node) × (last_of (e ∷ es) ≡ some t)
      × (h t ≡ some n)
      × Chain (write h t (some (record n { next = some b }))) ((e ∷ es) ++ ((b, bytes) ∷ []))
Chain-snoc h b bytes (c, x) [] (at, alone, chain) (differs, apart) new = (
  c,
  record { bytes = x; next = none },
  refl,
  at,
  (
    write_same h c _,
    (eq_flip c b differs, tt),
    (write_other h c _ b (eq_flip c b differs) ∙ new, tt, tt),
  ),
)
Chain-snoc h b bytes (c, x) ((d, y) ∷ es) (at, alone, chain) (differs, apart) new =
    let (t, n, last, loaded, chain') = Chain-snoc h b bytes (d, y) es chain apart new in
    (
      t,
      n,
      last,
      loaded,
      (
        write_other h t _ c (eq_flip t c (last-Apart c t ((d, y) ∷ es) last alone)) ∙ at,
        Apart-snoc c b bytes ((d, y) ∷ es) (eq_flip c b differs) alone,
        chain',
      ),
    )

pub load_lem : (h : Nodes) (b : ℕ) (n : Node) → h b ≡ some n → load h b ≡ ok n
unfolding load
load_lem h b n e = rw (load, e) refl

free_all_step :
    (fuel : ℕ) (h : Nodes) (b : ℕ) (n : Node)
    → h b ≡ some n
    → free_all (suc fuel) (some b) h ≡ free_all fuel n.next (write h b none)
unfolding free_all ◌>>=◌
free_all_step fuel h b n e = rw (load_lem h b n e) refl

-- Freeing a chain leaves nothing of it, and all else as it is.
pub free_all_lem :
    (fuel : ℕ) (h : Nodes) (es : List Entry)
    → length es ≤ fuel
    → Chain h es
    → (h' : Nodes) × (free_all fuel (first_of es) h ≡ ok h')
      × ((a : ℕ) → Apart a es → h' a ≡ h a)
      × ((a : ℕ) → Apart a es ⊎ (h' a ≡ none))
unfolding free_all
free_all_lem fuel h [] enough chain = (h, refl, λ a apart. refl, λ a. inl tt)
free_all_lem zero h (_ ∷ es) enough chain = absurd (omega arith)
free_all_lem (suc fuel) h ((b, bytes) ∷ es) enough (at, alone, chain) =
    let (h', e, kept, gone) =
      free_all_lem fuel (write h b none) es (omega arith) (Chain-write h b none es alone chain) in
    (
      h',
      free_all_step fuel h b (record { bytes = bytes; next = first_of es }) at ∙ e,
      λ a (differs, apart). kept a apart ∙ write_other h b none a (eq_flip b a differs),
      λ a. elim (gone a) [
        | inr none_left ↦ inr none_left
        | inl apart ↦ elim (Bool-cases (b == a)) [
          | inl same ↦ inr (kept a apart ∙ write_same_at h b none a same)
          | inr differs ↦ inl (differs, apart)
        ]
      ],
    )
