-- ===== src/Protocol/Wire.antt =====
-- The fixed-size pieces of a frame: the four header bytes (`protocol_generate_header`), and 32-bit
-- big-endian numbers (`write_u32_be` of main/doubao_ws_client.c, `read_u32_be` of
-- main/doubao_protocol.c).
pub mod Laws
use esp32s3_box3_doubao.Common.{
  ℕ, ◌+◌, Option, none, some, List, [], ◌∷◌, Exec, ok, ◌>>=◌, read, set, ltb, if◌then◌else◌,
  bit_and, bit_or,
}
use esp32s3_box3_doubao.Common.Words.{shl, shr, u8}
use esp32s3_box3_doubao.Protocol.Constants.{protocol_version, default_header_size}

-- `none` is the return value -1, with the buffer untouched; `some` is the buffer after the return
-- value 4.
unfoldable pub generate_header : List ℕ → ℕ → ℕ → ℕ → ℕ → ℕ → Option (List ℕ)
generate_header buf buf_len message_type flags serial_method compression =
    if ltb buf_len 4 then none else some written
  where
    buf0 : List ℕ
    buf0 = set buf 0 (u8 (bit_or (shl protocol_version 4) default_header_size))

    buf1 : List ℕ
    buf1 = set buf0 1 (u8 (bit_or (shl message_type 4) flags))

    buf2 : List ℕ
    buf2 = set buf1 2 (u8 (bit_or (shl serial_method 4) compression))

    written : List ℕ
    written = set buf2 3 0x00

-- The four bytes that the function stores at `buf`.
unfoldable pub write_u32_be : ℕ → List ℕ
write_u32_be val =
    bit_and (shr val 24) 0xFF
    ∷ bit_and (shr val 16) 0xFF
    ∷ bit_and (shr val 8) 0xFF
    ∷ bit_and val 0xFF
    ∷ []

-- The number at `p + i`.
unfoldable pub read_u32_be : List ℕ → ℕ → Exec ℕ
read_u32_be p i = do
  b0 ← read p i
  b1 ← read p (i + 1)
  b2 ← read p (i + 2)
  b3 ← read p (i + 3)
  ok (bit_or (bit_or (bit_or (shl b0 24) (shl b1 16)) (shl b2 8)) b3)
