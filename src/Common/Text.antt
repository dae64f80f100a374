-- ===== src/Common/Text.antt =====
-- C texts as bytes: UTF-8, decimal numbers, and `snprintf`.
use Prim.Native.Nat.{ℕ, zero, suc, ◌+◌, ◌-◌, ◌/◌, ◌%◌}
use Prim.Native.Char.{code}
use Prim.Native.String.{String}
use mathlib.Core.List.{List, [], ◌∷◌, ◌++◌}
use esp32s3_box3_doubao.Common.Lists.{take}
use esp32s3_box3_doubao.Common.Tests.{ltb, if◌then◌else◌}

-- A code point below 2 ^ 16.
abbrev encode_char : ℕ → List ℕ
encode_char c =
    if ltb c 0x80
    then c ∷ []
    else if ltb c 0x800
    then (0xC0 + c / 64) ∷ (0x80 + c % 64) ∷ []
    else (0xE0 + c / 4096) ∷ (0x80 + c / 64 % 64) ∷ (0x80 + c % 64) ∷ []

abbrev pub utf8 : String → List ℕ
utf8 String.[] = []
utf8 (String.◌∷◌ c s) = encode_char (code c) ++ utf8 s

-- `%d` of a number that is not negative, of at most `fuel` digits.
decimal_digits : ℕ → ℕ → List ℕ → List ℕ
decimal_digits zero n out = out
decimal_digits (suc fuel) n out =
    let digit = (0x30 + n % 10) ∷ out in
    let rest = decimal_digits fuel (n / 10) digit in if ltb n 10 then digit else rest

-- An `int` has at most ten digits.
unfoldable pub decimal : ℕ → List ℕ
unfolding decimal_digits
decimal n = decimal_digits 10 n []

-- What `snprintf` leaves in a buffer of `size` bytes, in front of the terminating zero.
abbrev pub snprintf : ℕ → List ℕ → List ℕ
snprintf size text = take (size - 1) text
