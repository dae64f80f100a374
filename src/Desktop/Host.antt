-- ===== src/Desktop/Host.antt =====
-- What the desktop client takes from elsewhere: the allocator and zlib.
use esp32s3_box3_doubao.Common.{ℕ, Bool, Option, List}

pub data Ret : Type 0 where
  stream_end okay other : Ret

-- What one call of `inflate` returns, writes, and leaves of the stream.
pub record Inflated : Type 0 where
  pub ret : Ret
  pub out : List ℕ
  pub strm : List ℕ

pub record Host : Type 0 where
  -- LWS_PRE: the bytes that libwebsockets wants in front of a frame.
  pub lws_pre : ℕ
  pub malloc : ℕ → Bool
  pub realloc : ℕ → Bool
  -- `deflateInit2` for gzip, `compressBound`, and `deflate` of all the input into that much space
  -- with Z_FINISH; `none` is any status but Z_STREAM_END.
  pub deflate_init_ok : Bool
  pub compress_bound : ℕ → ℕ
  pub deflate : ℕ → List ℕ → Option (List ℕ)
  -- `inflateInit2` for gzip or zlib, the stream with its input set, and `inflate` with Z_NO_FLUSH
  -- into that much space.
  pub inflate_init_ok : Bool
  pub start : List ℕ → List ℕ
  pub inflate : List ℕ → ℕ → Inflated
