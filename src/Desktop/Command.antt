-- ===== src/Desktop/Command.antt =====
-- `build_command` of doubao_c_version/client.c: a command of the client as a frame.
pub mod Layout
use esp32s3_box3_doubao.Common.{
  ℕ, ◌+◌, Bool, true, false, not, ◌&&◌, Option, none, some, List, [], ◌∷◌, ◌++◌, length, ltb,
  replicate, Exec, ok, fail_if, ◌>>=◌, ◌>>◌, ◌==◌, if◌then◌else◌,
}
use esp32s3_box3_doubao.Common.Words.{add_size64, u32}
use esp32s3_box3_doubao.Protocol.Constants.{compress_gzip}
use esp32s3_box3_doubao.Protocol.Wire.{generate_header, write_u32_be}
use esp32s3_box3_doubao.WsClient.Command.{bytes_of}
use esp32s3_box3_doubao.Desktop.Host.{Host}
use esp32s3_box3_doubao.Desktop.Gzip.{gzip_compress}

-- The payload to send: compressed, copied, or none at all.
unfoldable pub pack_payload : Host → ℕ → List ℕ → Exec (List ℕ)
pack_payload H compress bytes =
    if compress == compress_gzip && ltb 0 (length bytes)
    then gzip_compress H bytes
    else if ltb 0 (length bytes)
    then (do fail_if (not (H.malloc (length bytes))); ok bytes)
    else ok []

-- `total`.
unfoldable pub command_size : Bool → ℕ → ℕ → ℕ
command_size include_session sid_len compressed_len =
    let fixed = add_size64 4 4 in
    let with_session = if include_session then add_size64 fixed (add_size64 4 sid_len) else fixed in
    add_size64 with_session (add_size64 4 compressed_len)

unfoldable pub session_field : Bool → List ℕ → List ℕ
session_field include_session sid =
    if include_session then write_u32_be (u32 (length sid)) ++ sid else []

-- What is written behind the first LWS_PRE bytes of the block.
unfoldable pub write_frame : ℕ → ℕ → ℕ → ℕ → ℕ → Bool → List ℕ → List ℕ → List ℕ
write_frame msg_type flags serial compress cmd_id include_session sid compressed =
    bytes_of (generate_header (replicate 4 0) 4 msg_type flags serial compress)
    ++ (write_u32_be cmd_id
        ++ (session_field include_session sid
            ++ (write_u32_be (u32 (length compressed)) ++ compressed)))

-- `fail` is NULL; otherwise the frame, and `*out_len`.
unfoldable pub build_command :
    Host → ℕ → ℕ → ℕ → ℕ → ℕ → Option (List ℕ) → List ℕ → Bool → Exec (List ℕ × ℕ)
build_command H msg_type flags serial compress cmd_id session_id payload include_session = do
  compressed ← pack_payload H compress payload
  let total = command_size include_session (length (bytes_of session_id)) (length compressed)
  fail_if (not (H.malloc (add_size64 H.lws_pre total)))
  ok (
    write_frame msg_type flags serial compress cmd_id include_session (bytes_of session_id)
        compressed,
    total,
  )
