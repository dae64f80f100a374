-- ===== src/Protocol/Wire/Laws.antt =====
-- The header bytes and the big-endian numbers in plain arithmetic.
use esp32s3_box3_doubao.Common.{
  ℕ, zero, suc, ◌+◌, ◌*◌, ◌/◌, ◌%◌, ◌^◌, ◌<◌, ◌≡◌, refl, ap, ◌∙◌, some, List, [], ◌∷◌, ◌++◌, arith,
  ok, ◌>>=◌, read, drop, bit_or,
}
use esp32s3_box3_doubao.Common.Bits.{bit_or_fields, low_byte}
use esp32s3_box3_doubao.Common.Words.{shl, IsByte, IsU32}
use esp32s3_box3_doubao.Protocol.Wire.{generate_header, write_u32_be, read_u32_be}

-- A 32-bit number, most significant byte first.
abbrev pub be32 : ℕ → List ℕ
be32 v = v / 2 ^ 24 ∷ v / 2 ^ 16 % 256 ∷ v / 2 ^ 8 % 256 ∷ v % 256 ∷ []

-- Two fields of four bits.
abbrev pub nibbles : ℕ → ℕ → ℕ
nibbles hi lo = hi * 16 + lo

pub write_u32_be-be32 : (v : ℕ) → IsU32 v → write_u32_be v ≡ be32 v
unfolding write_u32_be
write_u32_be-be32 v h =
    ground (arith, low_byte (v / 2 ^ 24), low_byte (v / 2 ^ 16), low_byte (v / 2 ^ 8), low_byte v)

pub generate_header_lem :
    (a b c d message_type flags serial compression : ℕ) (rest : List ℕ)
    → message_type < 16
    → flags < 16
    → serial < 16
    → compression < 16
    → generate_header (a ∷ b ∷ c ∷ d ∷ rest) 4 message_type flags serial compression
      ≡ some (0x11 ∷ nibbles message_type flags ∷ nibbles serial compression ∷ 0 ∷ rest)
unfolding generate_header
generate_header_lem a b c d mt fl se co rest hm hf hs hc =
    ground (arith, bit_or_fields 4 mt fl hf, bit_or_fields 4 se co hc)

-- Four bytes joined by shifts and `|`.
pub join_bytes :
    (b0 b1 b2 b3 : ℕ)
    → IsByte b1
    → IsByte b2
    → IsByte b3
    → bit_or (bit_or (bit_or (shl b0 24) (shl b1 16)) (shl b2 8)) b3
      ≡ b0 * 2 ^ 24 + b1 * 2 ^ 16 + b2 * 2 ^ 8 + b3
join_bytes b0 b1 b2 b3 h1 h2 h3 = ground (
  arith,
  bit_or_fields 24 b0 (b1 * 2 ^ 16) (omega arith),
  bit_or_fields 16 (b0 * 256 + b1) (b2 * 2 ^ 8) (omega arith),
  bit_or_fields 8 (b0 * 256 * 256 + b1 * 256 + b2) b3 h3,
)

-- Reading at an offset is reading the rest of the list.
pub read-drop : (p : List ℕ) (i j k : ℕ) → k ≡ i + j → read p k ≡ read (drop i p) j
read-drop p zero j k e = ap (read p) (e ∙ omega arith)
read-drop [] (suc i) j k e = refl
read-drop (x ∷ p) (suc i) j zero e = absurd (omega arith)
read-drop (x ∷ p) (suc i) j (suc k) e = read-drop p i j k (omega arith)

-- The four bytes that follow offset `i` give back the number that they were written from.
pub read_u32_be-be32 :
    (p : List ℕ) (i v : ℕ) (rest : List ℕ)
    → IsU32 v
    → drop i p ≡ be32 v ++ rest
    → read_u32_be p i ≡ ok v
unfolding read_u32_be ◌>>=◌
read_u32_be-be32 p i v rest h e =
    rw (at 0 i (omega arith), at 1 (i + 1) refl, at 2 (i + 2) refl, at 3 (i + 3) refl)
      (ap ok joined)
  where
    at : (j k : ℕ) → k ≡ i + j → read p k ≡ read (be32 v ++ rest) j
    at j k q = read-drop p i j k q ∙ ap (λ l. read l j) e

    joined :
        bit_or
          (bit_or
            (bit_or (shl (v / 2 ^ 24) 24) (shl (v / 2 ^ 16 % 256) 16))
            (shl (v / 2 ^ 8 % 256) 8))
          (v % 256)
        ≡ v
    joined =
        join_bytes (v / 2 ^ 24) (v / 2 ^ 16 % 256) (v / 2 ^ 8 % 256) (v % 256) (omega arith)
          (omega arith) (omega arith)
        ∙ omega arith
