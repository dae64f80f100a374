-- ===== src/Desktop/Gzip.antt =====
-- `gzip_compress` and `gzip_decompress` of doubao_c_version/protocol.c.
pub mod Total
use esp32s3_box3_doubao.Common.{
  ℕ, zero, suc, ◌+◌, ◌-◌, Bool, true, false, not, ◌&&◌, Option, none, some, List, [], ◌++◌, length,
  take, ltb, ◌==◌, Exec, ok, fail, fault, fail_if, ◌>>=◌, ◌>>◌, if◌then◌else◌,
}
use esp32s3_box3_doubao.Common.Words.{u32, add_size64, mul_size64}
use esp32s3_box3_doubao.Desktop.Host.{Host, Ret, stream_end, okay, other, Inflated}

abbrev pub first_size : ℕ → ℕ
first_size data_len = let size = mul_size64 data_len 8 in if ltb size 4096 then 4096 else size

deflated : Option (List ℕ) → Exec (List ℕ)
deflated none = fail
deflated (some out) = ok out

module _ (H : Host) where
  unfoldable pub gzip_compress : List ℕ → Exec (List ℕ)
  unfolding deflated
  gzip_compress bytes = do
    let bound = add_size64 (H.compress_bound (length bytes)) 256
    fail_if (not (H.malloc bound))
    fail_if (not H.deflate_init_ok)
    deflated (H.deflate (u32 bound) (take (u32 (length bytes)) bytes))

  -- The loop of `inflate`, with what has been written and the space that is left in a buffer of
  -- `buf_size` bytes. Out of fuel it counts as a fault.
  unfoldable pub inflate_loop : ℕ → List ℕ → List ℕ → ℕ → ℕ → Exec (List ℕ)
  inflate_loop zero strm out avail_out buf_size = fault
  inflate_loop (suc fuel) strm out avail_out buf_size =
      let r = H.inflate strm avail_out in
      let left = avail_out - length r.out in
      let new_size = mul_size64 buf_size 2 in
      let grows = left == 0 in
      let rest =
        inflate_loop fuel r.strm (out ++ r.out) (if grows then u32 (new_size - buf_size) else left)
          (if grows then new_size else buf_size) in
      elim r.ret [
        | stream_end ↦ ok (out ++ r.out)
        | okay ↦ if grows && not (H.realloc new_size) then fail else rest
        | other ↦ fail
      ]

  unfoldable pub gzip_decompress : ℕ → List ℕ → Exec (List ℕ)
  gzip_decompress fuel bytes = do
    let buf_size = first_size (length bytes)
    fail_if (not (H.malloc buf_size))
    fail_if (not H.inflate_init_ok)
    inflate_loop fuel (H.start (take (u32 (length bytes)) bytes)) [] (u32 buf_size) buf_size
