-- ===== src/Protocol/Platform.antt =====
-- What main/doubao_protocol.c takes from elsewhere: the two allocators, the clock and miniz.
use esp32s3_box3_doubao.Common.{ℕ, Bool, Option, List, ◌||◌}

pub record Platform : Type 0 where
  -- Whether `heap_caps_malloc(n, ...)` and `malloc(n)` return a block.
  pub heap_caps_malloc : ℕ → Bool
  pub malloc : ℕ → Bool
  -- `time(&now)` as a `uint32_t`.
  pub now : ℕ
  -- `tinfl_decompress_mem_to_mem`: the size of the output buffer, the input, and whether a zlib
  -- header is expected; `none` is TINFL_DECOMPRESS_MEM_TO_MEM_FAILED.
  pub tinfl : ℕ → List ℕ → Bool → Option (List ℕ)
  -- `tdefl_init` succeeds, and `tdefl_compress` of all the input at once into a buffer of that size,
  -- with TDEFL_FINISH; `none` is any status but TDEFL_STATUS_DONE, or input left over.
  pub tdefl_init_okay : Bool
  pub tdefl : ℕ → List ℕ → Option (List ℕ)
  pub sizeof_tdefl_compressor : ℕ

-- `heap_caps_malloc`, then `malloc` if that fails.
abbrev pub allocates : Platform → ℕ → Bool
allocates P n = P.heap_caps_malloc n || P.malloc n
