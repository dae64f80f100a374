-- ===== src/Protocol/Compress.antt =====
-- `gzip_compress` and `crc32_calc` of main/doubao_protocol.c. The deflate stream is made by miniz.
pub mod Laws
use esp32s3_box3_doubao.Common.{
  ℕ, zero, suc, ◌+◌, ◌-◌, ◌*◌, ◌/◌, ◌%◌, ◌^◌, Bool, true, false, not, ◌&&◌, Option, none, some,
  List, [], ◌∷◌, ◌++◌, Exec, ok, fail, fault, fail_if, ◌>>=◌, ◌>>◌, length, ltb, ◌==◌,
  if◌then◌else◌, bit_and, bit_xor,
}
use esp32s3_box3_doubao.Common.Words.{shr, u32, add_size, minus_one}
use esp32s3_box3_doubao.Protocol.Platform.{Platform, allocates}

-- One round of the inner loop: the mask `-(crc & 1)` is all ones or zero.
abbrev crc_bit : ℕ → ℕ
crc_bit crc = if crc % 2 == 1 then bit_xor (shr crc 1) 0xEDB88320 else shr crc 1

abbrev crc_bits : ℕ → ℕ → ℕ
crc_bits zero crc = crc
crc_bits (suc n) crc = crc_bits n (crc_bit crc)

abbrev crc_bytes : List ℕ → ℕ → ℕ
crc_bytes [] crc = crc
crc_bytes (b ∷ rest) crc = crc_bytes rest (crc_bits 8 (bit_xor crc b))

-- `~crc` of 32 bits.
unfoldable pub crc32_calc : List ℕ → ℕ
crc32_calc bytes = 2 ^ 32 - 1 - crc_bytes bytes 0xFFFFFFFF

-- Four bytes, least significant first.
abbrev pub le32 : ℕ → List ℕ
le32 v =
    bit_and v 0xFF ∷ bit_and (shr v 8) 0xFF ∷ bit_and (shr v 16) 0xFF ∷ bit_and (shr v 24) 0xFF ∷ []

abbrev pub gzip_header : ℕ → List ℕ
gzip_header mtime = 0x1F ∷ 0x8B ∷ 0x08 ∷ 0x00 ∷ (le32 mtime ++ (0x02 ∷ 0xFF ∷ []))

abbrev pub is_empty_object : List ℕ → Bool
is_empty_object (b0 ∷ b1 ∷ []) = b0 == b'{' && b1 == b'}'
is_empty_object _ = false

abbrev pub precomputed_stream : List ℕ
precomputed_stream = 0xab ∷ 0xae ∷ 0x05 ∷ 0x00 ∷ []

abbrev pub precomputed_trailer : List ℕ
precomputed_trailer = 0x43 ∷ 0xbf ∷ 0xa6 ∷ 0xa3 ∷ 0x02 ∷ 0x00 ∷ 0x00 ∷ 0x00 ∷ []

unfoldable pub deflate_bound : ℕ → ℕ
deflate_bound data_len = add_size (add_size data_len (data_len / 1000)) 256

-- The frame in `out`, of `total_bound` bytes: the stream is behind the header already, and the
-- trailer is written behind the stream.
unfoldable pub write_trailer : ℕ → ℕ → List ℕ → List ℕ → Exec (List ℕ)
write_trailer total_bound mtime bytes stream =
    if ltb total_bound (10 + length stream + 8)
    then fault
    else ok
        (gzip_header mtime ++ (stream ++ (le32 (crc32_calc bytes) ++ le32 (u32 (length bytes)))))

-- What `tdefl_compress` leaves behind the header.
unfoldable pub deflate : Platform → ℕ → List ℕ → Exec (List ℕ)
deflate P bound bytes = elim (P.tdefl bound bytes) [ none ↦ fail | some stream ↦ ok stream ]

unfoldable pub compress_stream : Platform → List ℕ → Exec (List ℕ)
unfolding deflate
compress_stream P bytes = do
  let bound = deflate_bound (length bytes)
  let total_bound = add_size (add_size 10 bound) 8
  fail_if (not (allocates P total_bound))
  fail_if (not (allocates P P.sizeof_tdefl_compressor))
  fail_if (not P.tdefl_init_okay)
  stream ← deflate P bound bytes
  write_trailer total_bound P.now bytes stream

-- "{}" has its stream ready.
unfoldable pub gzip_compress : Platform → List ℕ → Exec (List ℕ)
gzip_compress P bytes =
    if is_empty_object bytes
    then fail_if (not (allocates P 22))
      >> ok (gzip_header P.now ++ (precomputed_stream ++ precomputed_trailer))
    else compress_stream P bytes
