-- ===== src/Protocol/Gzip/Safety.antt =====
-- `gzip_decompress` never reads outside its input.
use mathlib.Core.Path.{subst}
use esp32s3_box3_doubao.Common.{
  ℕ, ◌+◌, ◌^◌, ◌≤◌, ◌<◌, true, false, List, arith, length, ltb, ◌==◌, Ensures, Ensures-bind,
  Ensures-fail_if, Ensures-read, bit_and, Option-cases, Ensures-if, returns, fails, inl, inr, ◌⊎◌,
  ◌≡◌, none, some, take, drop, Ensures-slice, Ensures-map,
}
use esp32s3_box3_doubao.Common.Words.{add_size}
use esp32s3_box3_doubao.Protocol.Platform.{Platform}
use esp32s3_box3_doubao.Protocol.Gzip.{
  skip_extra, deflate_offset, deflate_length, output_size, inflate, gzip_decompress,
}

-- What miniz makes of a stream: with a zlib header, or else without one.
abbrev pub Inflates : Platform → ℕ → List ℕ → List ℕ → Type 0
Inflates P size stream out =
    (P.tinfl size stream true ≡ some out)
    ⊎ ((P.tinfl size stream true ≡ none) × (P.tinfl size stream false ≡ some out))

inflate-safe :
    (P : Platform) (size : ℕ) (stream : List ℕ)
    → Ensures (Inflates P size stream) (inflate P size stream)
unfolding inflate
inflate-safe P size stream = elim (Option-cases (P.tinfl size stream true)) [
  | inr (out, e) ↦ rw (inflate, e) (returns out (inl e))
  | inl e ↦ elim (Option-cases (P.tinfl size stream false)) [
    | inr (out, e') ↦ rw (inflate, e, e') (returns out (inr (e, e')))
    | inl e' ↦ rw (inflate, e, e') fails
  ]
]

skip_extra-safe :
    (bytes : List ℕ) (i : ℕ)
    → length bytes < 2 ^ 31
    → i ≤ length bytes
    → Ensures (λ _. Unit {0}) (skip_extra bytes i)
unfolding skip_extra
skip_extra-safe bytes i small h =
    Ensures-bind (Ensures-fail_if (ltb (length bytes) (add_size i 2))) λ _ e.
      let fits : i + 2 ≤ length bytes = ground arith in
      Ensures-bind (Ensures-read bytes i (omega arith))
        λ lo _. Ensures-bind (Ensures-read bytes (i + 1) (omega arith)) λ hi _. returns _ tt

-- The offset that comes out lies inside the input.
pub deflate_offset-safe :
    (bytes : List ℕ)
    → length bytes < 2 ^ 31
    → Ensures (λ offset. offset < length bytes) (deflate_offset bytes)
unfolding deflate_offset
deflate_offset-safe bytes small = Ensures-bind (Ensures-fail_if (ltb (length bytes) 10)) λ _ e.
    let long : 10 ≤ length bytes = ground arith in
    Ensures-bind (Ensures-read bytes 0 (omega arith)) λ m0 _.
      Ensures-bind (Ensures-read bytes 1 (omega arith)) λ m1 _.
        Ensures-bind (Ensures-fail_if _) λ _ _.
          Ensures-bind (Ensures-read bytes 3 (omega arith)) λ flags _.
            Ensures-bind
              (Ensures-if {Q = λ _. Unit {0}} (bit_and flags 0x04 == 0) (λ _. returns 10 tt)
                (λ _. skip_extra-safe bytes 10 small long))
              λ offset _. Ensures-bind (Ensures-fail_if _) λ _ inside. returns _ (ground arith)

-- The range that is inflated is not empty and lies in the input.
deflate_length-inside :
    (len offset : ℕ)
    → len < 2 ^ 31
    → offset < len
    → (0 < deflate_length len offset) × (offset + deflate_length len offset ≤ len)
unfolding deflate_length
deflate_length-inside len offset small h = (ground arith, ground arith)

-- What comes out is what miniz makes of a part of the input that is not empty.
abbrev pub Decoded : Platform → List ℕ → List ℕ → Type 0
Decoded P bytes out =
    (offset : ℕ) × (n : ℕ) × (0 < n)
    × (offset + n ≤ length bytes)
    × Inflates P (output_size (length bytes)) (take n (drop offset bytes)) out

-- On an input of fewer than 2 ^ 31 bytes, whatever is in it, the function reads nothing outside it, in
-- the header and in the range that it hands to miniz; and if it succeeds, it returns what miniz makes
-- of a part of the input that is not empty, as a zlib stream or, if it is none, as a raw one.
pub gzip_decompress-safe :
    (P : Platform) (bytes : List ℕ)
    → length bytes < 2 ^ 31
    → Ensures (Decoded P bytes) (gzip_decompress P bytes)
unfolding gzip_decompress
gzip_decompress-safe P bytes small = Ensures-bind (deflate_offset-safe bytes small) λ offset inside.
    Ensures-bind (Ensures-fail_if _) λ _ _.
      let n : ℕ = deflate_length (length bytes) offset in
      let (some_bytes, fits) = deflate_length-inside (length bytes) offset small inside in
      Ensures-bind (Ensures-slice bytes offset n fits) λ stream e.
        Ensures-map
          (λ out i. (
            offset,
            n,
            some_bytes,
            fits,
            subst (λ s. Inflates P (output_size (length bytes)) s out) e i,
          ))
          (inflate-safe P _ stream)
