-- ===== src/Desktop/Command/Layout.antt =====
-- What `build_command` writes, against the layout of the protocol.
use esp32s3_box3_doubao.Common.{
  ℕ, ◌+◌, ◌^◌, ◌<◌, ◌≡◌, refl, true, Option, none, some, List, [], ◌∷◌, ◌++◌, arith, length,
  length-append, ok, ◌>>=◌,
}
use esp32s3_box3_doubao.Common.Words.{IsU32, add_size64}
use esp32s3_box3_doubao.Protocol.Wire.Laws.{be32, nibbles, write_u32_be-be32, generate_header_lem}
use esp32s3_box3_doubao.WsClient.Command.{bytes_of}
use esp32s3_box3_doubao.WsClient.Command.Layout.{
  Command, counted, session_part, has_session, counted_lem,
}
use esp32s3_box3_doubao.Desktop.Host.{Host}
use esp32s3_box3_doubao.Desktop.Command.{
  pack_payload, command_size, session_field, write_frame, build_command,
}

-- The frame of a command whose payload is sent as `packed`, under that compression.
abbrev pub layout : ℕ → Command → List ℕ → List ℕ
layout compress c packed =
    0x11
    ∷ nibbles c.msg_type c.flags
    ∷ nibbles c.serial compress
    ∷ 0
    ∷ (be32 c.cmd_id ++ (session_part c.session ++ counted packed))

-- Every field fits its place, and the whole a `uint32_t`.
pub record IsCommand (compress : ℕ) (c : Command) (packed : List ℕ) : Type 0 where
  pub msg_type_fits : c.msg_type < 16
  pub flags_fits : c.flags < 16
  pub serial_fits : c.serial < 16
  pub compress_fits : compress < 16
  pub cmd_id_fits : IsU32 c.cmd_id
  pub small : length (layout compress c packed) < 2 ^ 32

session_field_lem :
    (s : Option (List ℕ))
    → length (session_part s) < 2 ^ 32
    → session_field (has_session s) (bytes_of s) ≡ session_part s
unfolding session_field
session_field_lem none h = refl
session_field_lem (some sid) h = counted_lem sid (omega arith)

module _ (compress : ℕ) (c : Command) (packed : List ℕ) where
  size_of_layout :
      length (layout compress c packed)
      ≡ 8 + length (session_part c.session) + length (counted packed)
  size_of_layout = omega (arith, length-append (session_part c.session) (counted packed))

  write_frame_lem :
      IsCommand compress c packed
      → write_frame c.msg_type c.flags c.serial compress c.cmd_id
          (has_session c.session)
          (bytes_of c.session)
          packed
        ≡ layout compress c packed
  unfolding write_frame
  write_frame_lem v = rw (
    generate_header_lem 0 0 0 0 c.msg_type c.flags c.serial compress [] v.msg_type_fits v.flags_fits
        v.serial_fits v.compress_fits,
    write_u32_be-be32 c.cmd_id v.cmd_id_fits,
    session_field_lem c.session (omega (arith, v.small, size_of_layout)),
    counted_lem packed (omega (arith, v.small, size_of_layout)),
  )

command_size_lem :
    (s : Option (List ℕ)) (packed : List ℕ)
    → 8 + length (session_part s) + length (counted packed) < 2 ^ 32
    → command_size (has_session s) (length (bytes_of s)) (length packed)
      ≡ 8 + length (session_part s) + length (counted packed)
unfolding command_size
command_size_lem none packed h = omega arith
command_size_lem (some sid) packed h = omega arith

-- With memory for it, a command is written as the protocol lays it out, with the compression that
-- was asked for in its header and the payload packed accordingly, and the reported length is that of
-- the frame.
pub build_command-packed_layout :
    (H : Host) (compress : ℕ) (c : Command) (packed : List ℕ)
    → ((n : ℕ) → H.malloc n ≡ true)
    → pack_payload H compress c.payload ≡ ok packed
    → IsCommand compress c packed
    → build_command H c.msg_type c.flags c.serial compress c.cmd_id c.session c.payload
        (has_session c.session)
      ≡ ok (layout compress c packed, length (layout compress c packed))
unfolding build_command ◌>>=◌
build_command-packed_layout H compress c packed room e v = rw (
  e,
  room (
      add_size64 H.lws_pre
        (command_size (has_session c.session) (length (bytes_of c.session)) (length packed))),
  write_frame_lem compress c packed v,
  command_size_lem c.session packed (omega (arith, v.small, size_of_layout compress c packed)),
  ← size_of_layout compress c packed,
)
