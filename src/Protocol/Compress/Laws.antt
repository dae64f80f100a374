-- ===== src/Protocol/Compress/Laws.antt =====
-- Compression and decompression are inverse.
use mathlib.Core.Path.{subst}
use esp32s3_box3_doubao.Common.{
  ℕ, ◌+◌, ◌^◌, ◌≤◌, ◌<◌, ◌≡◌, refl, sym, true, false, Option, none, some, List, ◌++◌, arith, ok,
  ◌>>=◌, length, take-append, slice_lem, length-append, ltb, leb, Bool-cases, inl, inr,
  if◌then◌else◌,
}
use esp32s3_box3_doubao.Common.Words.{add_size, u32}
use esp32s3_box3_doubao.Protocol.Platform.{Platform, allocates}
use esp32s3_box3_doubao.Protocol.Gzip.{
  deflate_offset, deflate_length, output_size, inflate, gzip_decompress,
}
use esp32s3_box3_doubao.Protocol.Compress.{
  crc32_calc, le32, gzip_header, is_empty_object, precomputed_stream, deflate_bound, write_trailer,
  deflate, compress_stream, gzip_compress, precomputed_trailer,
}

-- The deflate stream of `bytes`: the one that is kept for "{}", or that of miniz.
abbrev pub stream_of : Platform → List ℕ → Option (List ℕ)
stream_of P bytes =
    if is_empty_object bytes
    then some precomputed_stream
    else P.tdefl (deflate_bound (length bytes)) bytes

-- `bytes` is compressed to `stream`, and miniz reads the stream back: it is no zlib stream, and as a
-- raw one it gives `bytes` to every output buffer that holds them.
pub record Miniz (P : Platform) (bytes stream : List ℕ) : Type 0 where
  pub init_okay : P.tdefl_init_okay ≡ true
  pub deflated : stream_of P bytes ≡ some stream
  pub stream_fits : length stream ≤ deflate_bound (length bytes)
  pub stream_nonempty : 0 < length stream
  pub no_zlib : (n : ℕ) → P.tinfl n stream true ≡ none
  pub inflated : (n : ℕ) → length bytes ≤ n → P.tinfl n stream false ≡ some bytes

-- Header, stream and a trailer of eight bytes.
abbrev framed : ℕ → List ℕ → List ℕ → List ℕ
framed mtime stream trailer = gzip_header mtime ++ (stream ++ trailer)

deflate_offset-framed :
    (mtime : ℕ) (rest : List ℕ)
    → 0 < length rest
    → deflate_offset (gzip_header mtime ++ rest) ≡ ok 10
unfolding deflate_offset ◌>>=◌
deflate_offset-framed mtime rest h = rw (long, inside) refl
  where
    long : ltb (length (gzip_header mtime ++ rest)) 10 ≡ false
    long = ground arith

    inside : leb (length (gzip_header mtime ++ rest)) 10 ≡ false
    inside = ground arith

deflate_length-framed : (s : ℕ) → 0 < s → s < 2 ^ 30 → deflate_length (10 + s + 8) 10 ≡ s
unfolding deflate_length
deflate_length-framed s h small = ground arith

module _ (P : Platform) (bytes stream trailer : List ℕ) (mtime : ℕ) (z : Miniz P bytes stream)
    (eight : length trailer ≡ 8) (small : length stream < 2 ^ 30)
    (room : (n : ℕ) → allocates P n ≡ true)
    (holds : length bytes ≤ output_size (10 + length stream + 8)) where
  length-framed : length (framed mtime stream trailer) ≡ 10 + length stream + 8
  length-framed = omega (arith, length-append stream trailer)

  inflate_lem : inflate P (output_size (10 + length stream + 8)) stream ≡ ok bytes
  unfolding inflate
  inflate_lem = rw (
    inflate,
    z.no_zlib (output_size (10 + length stream + 8)),
    z.inflated (output_size (10 + length stream + 8)) holds,
  )

  gzip_decompress-framed : gzip_decompress P (framed mtime stream trailer) ≡ ok bytes
  unfolding gzip_decompress ◌>>=◌
  gzip_decompress-framed =
      rw
        (
          deflate_offset-framed mtime (stream ++ trailer)
              (omega (arith, z.stream_nonempty, length-append stream trailer)),
          length-framed,
          deflate_length-framed (length stream) z.stream_nonempty small,
          slice_lem (framed mtime stream trailer) 10 (length stream) (omega (arith, length-framed)),
          take-append stream trailer,
          room (output_size (10 + length stream + 8)),
        )
        inflate_lem

-- What is compressed, given memory and a deflate stream that miniz reads back, is decompressed to
-- the same bytes, unless the frame is so short that the output buffer, of eight times its size and
-- at least 4096 bytes, cannot hold them.
pub gzip_decompress-compress :
    (P : Platform) (bytes stream : List ℕ)
    → Miniz P bytes stream
    → length stream < 2 ^ 30
    → length bytes < 2 ^ 30
    → ((n : ℕ) → allocates P n ≡ true)
    → length bytes ≤ output_size (10 + length stream + 8)
    → (gzip_compress P bytes >>= gzip_decompress P) ≡ ok bytes
unfolding gzip_compress compress_stream write_trailer deflate ◌>>=◌
gzip_decompress-compress P bytes stream z small_stream small room holds =
    elim (Bool-cases (is_empty_object bytes)) [
      | inl e ↦
          let same : some precomputed_stream ≡ some stream = (rw e at z.deflated) in
          let eq : precomputed_stream ≡ stream = cc in
          rw (e, room 22)
            (subst (λ s. gzip_decompress P (framed P.now s precomputed_trailer) ≡ ok bytes) (sym eq)
              (gzip_decompress-framed P bytes stream precomputed_trailer P.now z refl small_stream
                room holds))
      | inr e ↦
          rw (e, compressed e)
            (gzip_decompress-framed P bytes stream
              (le32 (crc32_calc bytes) ++ le32 (u32 (length bytes))) P.now z refl small_stream room
              holds)
    ]
  where
    fits :
        ltb (add_size (add_size 10 (deflate_bound (length bytes))) 8) (10 + length stream + 8)
        ≡ false
    fits = unfold deflate_bound in ground (arith, z.stream_fits)

    compressed :
        is_empty_object bytes ≡ false
        → compress_stream P bytes
          ≡ ok (framed P.now stream (le32 (crc32_calc bytes) ++ le32 (u32 (length bytes))))
    compressed e =
        let made : P.tdefl (deflate_bound (length bytes)) bytes ≡ some stream =
          (rw e at z.deflated) in
        rw (
          room (add_size (add_size 10 (deflate_bound (length bytes))) 8),
          room P.sizeof_tdefl_compressor,
          z.init_okay,
          made,
          fits,
        )
