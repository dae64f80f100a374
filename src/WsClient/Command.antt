-- ===== src/WsClient/Command.antt =====
-- `build_command` of main/doubao_ws_client.c: a command of the client as a frame.
pub mod Layout
use esp32s3_box3_doubao.Common.{
  ℕ, ◌+◌, Bool, true, false, ◌&&◌, not, Option, none, some, List, [], ◌++◌, length, ltb, replicate,
  if◌then◌else◌,
}
use esp32s3_box3_doubao.Common.Words.{add_size, u32}
use esp32s3_box3_doubao.Protocol.Constants.{compress_none}
use esp32s3_box3_doubao.Protocol.Platform.{Platform, allocates}
use esp32s3_box3_doubao.Protocol.Wire.{generate_header, write_u32_be}

-- A null pointer is `none`; a text is its bytes in front of the terminating zero.
abbrev pub bytes_of : Option (List ℕ) → List ℕ
bytes_of none = []
bytes_of (some text) = text

-- The copy of the payload: `none` is the early return, `some []` the null pointer of an empty one.
copy_payload : Platform → Option (List ℕ) → Option (List ℕ)
copy_payload P payload =
    let bytes = bytes_of payload in
    if ltb 0 (length bytes)
    then if allocates P (length bytes) then some bytes else none
    else some []

-- `total`.
unfoldable pub command_size : Bool → ℕ → ℕ → ℕ
command_size include_session sid_len compressed_len =
    let fixed = add_size 4 4 in
    let with_session = if include_session then add_size fixed (add_size 4 sid_len) else fixed in
    add_size with_session (add_size 4 compressed_len)

session_field : Bool → List ℕ → List ℕ
session_field include_session sid =
    if include_session then write_u32_be (u32 (length sid)) ++ sid else []

-- The header is written into the first four bytes of the new block.
write_frame : ℕ → ℕ → ℕ → ℕ → Bool → List ℕ → List ℕ → List ℕ
unfolding session_field
write_frame msg_type flags serial cmd_id include_session sid compressed =
    bytes_of (generate_header (replicate 4 0) 4 msg_type flags serial compress_none)
    ++ (write_u32_be cmd_id
        ++ (session_field include_session sid
            ++ (write_u32_be (u32 (length compressed)) ++ compressed)))

-- `none` is NULL; otherwise the block and `*out_len`. The argument `compress` is overwritten by
-- COMPRESS_NONE before it is used.
pub build_command :
    Platform → ℕ → ℕ → ℕ → ℕ → ℕ → Option (List ℕ) → Option (List ℕ) → Bool → Option (List ℕ × ℕ)
build_command P msg_type flags serial compress cmd_id session_id payload include_session =
    elim (copy_payload P payload) [
      | none ↦ none
      | some compressed ↦
          let total =
            command_size include_session (length (bytes_of session_id)) (length compressed) in
          if P.malloc total
          then some (
            write_frame msg_type flags serial cmd_id include_session (bytes_of session_id)
                compressed,
            total,
          )
          else none
    ]
