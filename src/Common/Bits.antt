-- ===== src/Common/Bits.antt =====
-- `&` and `|` as arithmetic: fields that do not overlap, and low masks, at every width.
use Prim.Native.Nat.{min, max, digits, bit_and-bitwise, bit_or-bitwise}
use Prim.Native.Nat.{ℕ, zero, suc, ◌+◌, ◌-◌, ◌*◌, ◌/◌, ◌%◌, ◌^◌, ◌≤◌, ◌<◌, bit_and, bit_or}
use mathlib.Core.Path.{◌≡◌, refl, ap}
use native.Mathlib.Nat.{pow-suc, one-le-pow, div-add-mod}
use native.Mathlib.Omega.{arith}

-- The digit recursions, at any fuel that reaches the first number.
abbrev or_digits : ℕ → ℕ → ℕ → ℕ
or_digits n a b = digits (λ y. y) max n a b

abbrev and_digits : ℕ → ℕ → ℕ → ℕ
and_digits n a b = digits (λ y. 0) min n a b

or_digits-zero : (n a : ℕ) → a ≤ n → or_digits n a 0 ≡ a
or_digits-zero zero a h = omega arith
or_digits-zero (suc n) zero h = refl
or_digits-zero (suc n) (suc a) h = omega (arith, or_digits-zero n (suc a / 2) (omega arith))

and_digits-zero : (n a : ℕ) → and_digits n a 0 ≡ 0
and_digits-zero zero a = refl
and_digits-zero (suc n) zero = refl
and_digits-zero (suc n) (suc a) = omega (arith, and_digits-zero n (suc a / 2))

double_field : (q k : ℕ) → q * 2 ^ suc k ≡ 2 * (q * 2 ^ k)
double_field q k = omega (arith, ap (λ (t : ℕ). q * t) (pow-suc 2 k))

or_digits_fields : (k q r n a : ℕ) → a ≡ q * 2 ^ k → r < 2 ^ k → a ≤ n → or_digits n a r ≡ a + r
or_digits_fields zero q r n a e fits h = ground (arith, or_digits-zero n a h)
or_digits_fields (suc k) q r zero a e fits h = omega arith
or_digits_fields (suc k) q r (suc n) zero e fits h = omega arith
or_digits_fields (suc k) q r (suc n) (suc a) e fits h = omega (
  arith,
  double_field q k,
  pow-suc 2 k,
  or_digits_fields k q (r / 2) n (suc a / 2) (omega (arith, double_field q k))
      (omega (arith, pow-suc 2 k)) (omega arith),
)

and_digits_fields :
    (k q r m n a : ℕ) → m + 1 ≡ 2 ^ k → a ≡ q * 2 ^ k + r → r < 2 ^ k → a ≤ n → and_digits n a m ≡ r
and_digits_fields zero q r zero n a em e fits h = omega (arith, and_digits-zero n a)
and_digits_fields zero q r (suc m) n a em e fits h = omega arith
and_digits_fields (suc k) q r m zero a em e fits h = omega arith
and_digits_fields (suc k) q r m (suc n) zero em e fits h = omega arith
and_digits_fields (suc k) q r m (suc n) (suc a) em e fits h = omega (
  arith,
  double_field q k,
  pow-suc 2 k,
  and_digits_fields k q (r / 2) (m / 2) n (suc a / 2) (omega (arith, pow-suc 2 k))
      (omega (arith, double_field q k)) (omega (arith, pow-suc 2 k)) (omega arith),
)

-- `(q << k) | r` is a sum when `r` fits `k` bits.
pub bit_or_fields : (k q r : ℕ) → r < 2 ^ k → bit_or (q * 2 ^ k) r ≡ q * 2 ^ k + r
bit_or_fields k q r h = simp bit_or-bitwise (or_digits_fields k q r _ _ refl h (omega arith))

-- A mask of `k` low bits is the remainder by `2 ^ k`.
pub bit_and_mask : (k a : ℕ) → bit_and a (2 ^ k - 1) ≡ a % 2 ^ k
bit_and_mask k a = simp bit_and-bitwise (
    and_digits_fields k (a / 2 ^ k) (a % 2 ^ k) (2 ^ k - 1) a a (omega (arith, one-le-pow k 2))
      (grind (arith, div-add-mod a (2 ^ k))) (grind (arith, one-le-pow k 2)) (omega arith))

pub low_nibble : (a : ℕ) → bit_and a 0x0f ≡ a % 16
low_nibble a = bit_and_mask 4 a

pub low_byte : (a : ℕ) → bit_and a 0xff ≡ a % 256
low_byte a = bit_and_mask 8 a
