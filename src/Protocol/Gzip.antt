-- ===== src/Protocol/Gzip.antt =====
-- `gzip_decompress` of main/doubao_protocol.c. The deflate stream is inflated by miniz.
pub mod Safety
use esp32s3_box3_doubao.Common.{
  ℕ, ◌+◌, ◌^◌, Bool, true, false, not, ◌||◌, Option, none, some, List, [], ◌∷◌, Exec, ok, fail,
  fail_if, ◌>>=◌, ◌>>◌, read, slice, length, take, drop, ltb, leb, ◌==◌, if◌then◌else◌, bit_and,
  bit_or,
}
use esp32s3_box3_doubao.Common.Words.{shl, add_size, sub_size, mul_size}
use esp32s3_box3_doubao.Protocol.Platform.{Platform, allocates}

-- FEXTRA: a two-byte length, and that many bytes.
skip_extra : List ℕ → ℕ → Exec ℕ
skip_extra bytes offset = do
  fail_if (ltb (length bytes) (add_size offset 2))
  lo ← read bytes offset
  hi ← read bytes (offset + 1)
  ok (add_size offset (2 + bit_or lo (shl hi 8)))

-- `while (offset < data_len && data[offset] != 0) offset++;` over what lies behind `offset`.
find_nul : List ℕ → ℕ → ℕ
find_nul [] offset = offset
find_nul (b ∷ rest) offset = if b == 0 then offset else find_nul rest (offset + 1)

-- FNAME and FCOMMENT: a text that ends in a zero byte.
skip_text : List ℕ → ℕ → ℕ
skip_text bytes offset = add_size (find_nul (drop offset bytes) offset) 1

-- Where the deflate stream begins.
unfoldable pub deflate_offset : List ℕ → Exec ℕ
unfolding skip_extra skip_text find_nul
deflate_offset bytes = do
  fail_if (ltb (length bytes) 10)
  magic0 ← read bytes 0
  magic1 ← read bytes 1
  fail_if (not (magic0 == 0x1F) || not (magic1 == 0x8B))
  flags ← read bytes 3
  offset ← if bit_and flags 0x04 == 0 then ok 10 else skip_extra bytes 10
  let after_name = if bit_and flags 0x08 == 0 then offset else skip_text bytes offset
  let after_comment = if bit_and flags 0x10 == 0 then after_name else skip_text bytes after_name
  let after_crc = if bit_and flags 0x02 == 0 then after_comment else add_size after_comment 2
  fail_if (leb (length bytes) after_crc)
  ok after_crc

-- How many bytes are inflated: all but the trailer, if that leaves any.
unfoldable pub deflate_length : ℕ → ℕ → ℕ
deflate_length data_len offset =
    let body = sub_size (sub_size data_len offset) 8 in
    if body == 0 || leb (2 ^ 31) body then sub_size data_len offset else body

unfoldable pub output_size : ℕ → ℕ
output_size data_len = let size = mul_size data_len 8 in if ltb size 4096 then 4096 else size

-- `none` is TINFL_DECOMPRESS_MEM_TO_MEM_FAILED of both calls.
unfoldable pub inflate : Platform → ℕ → List ℕ → Exec (List ℕ)
inflate P size stream = elim (P.tinfl size stream true) [
  | some out ↦ ok out
  | none ↦ elim (P.tinfl size stream false) [ some out ↦ ok out | none ↦ fail ]
]

unfoldable pub gzip_decompress : Platform → List ℕ → Exec (List ℕ)
unfolding inflate
gzip_decompress P bytes = do
  offset ← deflate_offset bytes
  let size = output_size (length bytes)
  fail_if (not (allocates P size))
  stream ← slice bytes offset (deflate_length (length bytes) offset)
  inflate P size stream
