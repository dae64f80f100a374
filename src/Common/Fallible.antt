-- ===== src/Common/Fallible.antt =====
-- The result of a C function that reports failure by its return value, over memory that may be
-- accessed out of range.
use Prim.Native.Nat.{ℕ, zero, suc, ◌+◌, ◌≤◌, ◌<◌}
use mathlib.Core.Path.{◌≡◌, refl, subst}
use mathlib.Core.Logic.{◌≢◌}
use mathlib.Core.Bool.{Bool, true, false}
use mathlib.Core.Option.{none, some}
use mathlib.Core.List.{List, [], ◌∷◌, ◌++◌}
use native.Mathlib.Omega.{arith}
use esp32s3_box3_doubao.Common.Lists.{length, take, drop, get_elem?}
use esp32s3_box3_doubao.Common.Tests.{ltb, if◌then◌else◌}

-- `fail` is the code's own error return; `fault` is an access outside the buffer.
pub data Exec {ℓ} (A : Type ℓ) : Type ℓ where
  ok : A → Exec A
  fail : Exec A
  fault : Exec A

infixl 5 ◌>>=◌ ◌>>◌
unfoldable pub ◌>>=◌ {ℓ κ} : {A : Type ℓ} {B : Type κ} → Exec A → (A → Exec B) → Exec B
ok a >>= f = f a
fail >>= f = fail
fault >>= f = fault

abbrev pub ◌>>◌ {ℓ} : {B : Type ℓ} → Exec (Unit {0}) → Exec B → Exec B
m >> k = m >>= λ _. k

-- `if (test) return -1;`
abbrev pub fail_if : Bool → Exec (Unit {0})
fail_if true = fail
fail_if false = ok tt

-- `p[i]`
abbrev pub read : List ℕ → ℕ → Exec ℕ
read bytes i = elim (get_elem? bytes i) [ none ↦ fault | some b ↦ ok b ]

-- A run that never leaves its buffer, and whose result satisfies `Q`.
pub data Ensures {ℓ κ} {A : Type ℓ} (Q : A → Type κ) : Exec A → Type (ℓ ⊔ κ) where
  returns : (a : A) → Q a → Ensures Q (ok a)
  fails : Ensures Q fail

pub Ensures-bind {ℓ κ ι ν} :
    {A : Type ℓ} {B : Type κ} {P : A → Type ι} {Q : B → Type ν} {m : Exec A} {f : A → Exec B}
    → Ensures P m
    → ((a : A) → P a → Ensures Q (f a))
    → Ensures Q (m >>= f)
unfolding ◌>>=◌
Ensures-bind (returns a p) k = k a p
Ensures-bind fails k = fails

pub Ensures-map {ℓ κ ι} :
    {A : Type ℓ} {P : A → Type κ} {Q : A → Type ι} {m : Exec A}
    → ((a : A) → P a → Q a)
    → Ensures P m
    → Ensures Q m
Ensures-map weaken (returns a p) = returns a (weaken a p)
Ensures-map weaken fails = fails

pub Ensures-ne-fault {ℓ κ} : {A : Type ℓ} {Q : A → Type κ} {m : Exec A} → Ensures Q m → m ≢ fault
Ensures-ne-fault (returns a p) e = cc
Ensures-ne-fault fails e = cc

pub Ensures-fail_if : (b : Bool) → Ensures (λ _. b ≡ false) (fail_if b)
Ensures-fail_if true = fails
Ensures-fail_if false = returns tt refl

-- A read below the length succeeds.
pub Ensures-read : (p : List ℕ) (i : ℕ) → i < length p → Ensures (λ _. Unit {0}) (read p i)
Ensures-read [] i h = absurd (omega arith)
Ensures-read (x ∷ p) zero h = returns x tt
Ensures-read (x ∷ p) (suc i) h = Ensures-read p i (omega arith)

pub Ensures-read_at :
    (p : List ℕ) (i : ℕ) → i < length p → Ensures (λ b. get_elem? p i ≡ some b) (read p i)
Ensures-read_at [] i h = absurd (omega arith)
Ensures-read_at (x ∷ p) zero h = returns x refl
Ensures-read_at (x ∷ p) (suc i) h = Ensures-read_at p i (omega arith)

-- The `n` bytes from `bytes + i` on, as `memcpy` or a decoder reads them.
unfoldable pub slice : List ℕ → ℕ → ℕ → Exec (List ℕ)
slice bytes i n = if ltb (length bytes) (i + n) then fault else ok (take n (drop i bytes))

-- A buffer of `size` bytes whose front is `held`, with more bytes written behind it.
unfoldable pub store : ℕ → List ℕ → List ℕ → Exec (List ℕ)
store size held bytes = if ltb size (length held + length bytes) then fault else ok (held ++ bytes)

pub slice_lem :
    (bytes : List ℕ) (i n : ℕ) → i + n ≤ length bytes → slice bytes i n ≡ ok (take n (drop i bytes))
unfolding slice
slice_lem bytes i n h =
    let inside : ltb (length bytes) (i + n) ≡ false = ground arith in rw inside refl

pub store_lem :
    (size : ℕ) (held bytes : List ℕ)
    → length held + length bytes ≤ size
    → store size held bytes ≡ ok (held ++ bytes)
unfolding store
store_lem size held bytes h =
    let inside : ltb size (length held + length bytes) ≡ false = ground arith in rw inside refl

pub Ensures-slice :
    (bytes : List ℕ) (i n : ℕ)
    → i + n ≤ length bytes
    → Ensures (λ out. out ≡ take n (drop i bytes)) (slice bytes i n)
Ensures-slice bytes i n h = rw (slice_lem bytes i n h) (returns (take n (drop i bytes)) refl)

pub Ensures-store :
    (size : ℕ) (held bytes : List ℕ)
    → length held + length bytes ≤ size
    → Ensures (λ _. Unit {0}) (store size held bytes)
Ensures-store size held bytes h = rw (store_lem size held bytes h) (returns (held ++ bytes) tt)

-- Either branch of a test.
pub Ensures-if {ℓ κ} :
    {A : Type ℓ} {Q : A → Type κ} (b : Bool) {m n : Exec A}
    → (b ≡ true → Ensures Q m)
    → (b ≡ false → Ensures Q n)
    → Ensures Q (if b then m else n)
Ensures-if true h k = h refl
Ensures-if false h k = k refl

pub >>=_assoc {ℓ κ ι} :
    {A : Type ℓ} {B : Type κ} {C : Type ι} (m : Exec A) (f : A → Exec B) (g : B → Exec C)
    → ((m >>= f) >>= g) ≡ (m >>= λ a. f a >>= g)
unfolding ◌>>=◌
>>=_assoc (ok a) f g = refl
>>=_assoc fail f g = refl
>>=_assoc fault f g = refl

-- Two runs agree if their first parts do, and what follows agrees on the results that the first part
-- can have.
pub >>=_agree {ℓ κ ι} :
    {A : Type ℓ} {B : Type κ} {P : A → Type ι} {m m' : Exec A} {f g : A → Exec B}
    → m ≡ m'
    → Ensures P m'
    → ((a : A) → P a → f a ≡ g a)
    → (m >>= f) ≡ (m' >>= g)
unfolding ◌>>=◌
>>=_agree e (returns a p) k = rw e (k a p)
>>=_agree e fails k = rw e

pub >>=_same {ℓ κ} :
    {A : Type ℓ} {B : Type κ} {m : Exec A} (m' : Exec A) {f g : A → Exec B}
    → m ≡ m'
    → ((a : A) → f a ≡ g a)
    → (m >>= f) ≡ (m' >>= g)
unfolding ◌>>=◌
>>=_same (ok a) e k = rw e (k a)
>>=_same fail e k = rw e
>>=_same fault e k = rw e

-- What holds of the result, if there is one.
pub data Yields {ℓ κ} {A : Type ℓ} (Q : A → Type κ) : Exec A → Type (ℓ ⊔ κ) where
  gives : (a : A) → Q a → Yields Q (ok a)
  none_failed : Yields Q fail
  none_faulted : Yields Q fault

pub Yields-bind {ℓ κ ι} :
    {A : Type ℓ} {B : Type κ} {Q : B → Type ι} (m : Exec A) {f : A → Exec B}
    → ((a : A) → Yields Q (f a))
    → Yields Q (m >>= f)
unfolding ◌>>=◌
Yields-bind (ok a) k = k a
Yields-bind fail k = none_failed
Yields-bind fault k = none_faulted

pub Yields-then {ℓ κ ι ν} :
    {A : Type ℓ} {B : Type κ} {P : A → Type ι} {Q : B → Type ν} {m : Exec A} {f : A → Exec B}
    → Yields P m
    → ((a : A) → P a → Yields Q (f a))
    → Yields Q (m >>= f)
unfolding ◌>>=◌
Yields-then (gives a p) k = k a p
Yields-then none_failed k = none_failed
Yields-then none_faulted k = none_faulted

pub Yields-map {ℓ κ ι} :
    {A : Type ℓ} {P : A → Type κ} {Q : A → Type ι} {m : Exec A}
    → ((a : A) → P a → Q a)
    → Yields P m
    → Yields Q m
Yields-map weaken (gives a p) = gives a (weaken a p)
Yields-map weaken none_failed = none_failed
Yields-map weaken none_faulted = none_faulted

pub Yields-if {ℓ κ} :
    {A : Type ℓ} {Q : A → Type κ} (b : Bool) {m n : Exec A}
    → Yields Q m
    → Yields Q n
    → Yields Q (if b then m else n)
Yields-if true y z = y
Yields-if false y z = z

of_ok {ℓ κ} : {A : Type ℓ} (Q : A → Type κ) (m : Exec A) → Yields Q m → (a : A) → m ≡ ok a → Q a
of_ok Q m (gives b q) a e = let same : b ≡ a = cc in subst Q same q
of_ok Q m none_failed a e = absurd cc
of_ok Q m none_faulted a e = absurd cc

pub Yields-result {ℓ κ} :
    {A : Type ℓ} (Q : A → Type κ) {m : Exec A} {a : A} → Yields Q m → m ≡ ok a → Q a
Yields-result Q {m} {a} y e = of_ok Q m y a e
