-- ===== src/WsClient/Command/Layout.antt =====
-- What `build_command` writes, against the layout of the protocol.
use esp32s3_box3_doubao.Common.{
  ℕ, ◌+◌, ◌^◌, ◌<◌, ◌≡◌, refl, ap, ◌∙◌, Bool, true, false, Option, none, some, List, [], ◌∷◌, ◌++◌,
  arith, length, length-append,
}
use native.Mathlib.Nat.{mod-eq_of_lt}
use esp32s3_box3_doubao.Common.Words.{IsU32, u32}
use esp32s3_box3_doubao.Protocol.Constants.{compress_none}
use esp32s3_box3_doubao.Protocol.Platform.{Platform, allocates}
use esp32s3_box3_doubao.Protocol.Wire.{write_u32_be}
use esp32s3_box3_doubao.Protocol.Wire.Laws.{be32, nibbles, write_u32_be-be32, generate_header_lem}
use esp32s3_box3_doubao.WsClient.Command.{
  bytes_of, copy_payload, command_size, session_field, write_frame, build_command,
}

-- A command, and its frame: header, command number, session id behind its length where the
-- command has one, payload behind its length.
pub record Command : Type 0 where
  pub msg_type : ℕ
  pub flags : ℕ
  pub serial : ℕ
  pub cmd_id : ℕ
  pub session : Option (List ℕ)
  pub payload : List ℕ

abbrev pub counted : List ℕ → List ℕ
counted bytes = be32 (length bytes) ++ bytes

abbrev pub session_part : Option (List ℕ) → List ℕ
session_part none = []
session_part (some sid) = counted sid

abbrev pub layout : Command → List ℕ
layout c =
    0x11
    ∷ nibbles c.msg_type c.flags
    ∷ nibbles c.serial compress_none
    ∷ 0
    ∷ (be32 c.cmd_id ++ (session_part c.session ++ counted c.payload))

abbrev pub has_session : Option (List ℕ) → Bool
has_session none = false
has_session (some _) = true

-- Every field fits its place, and the whole a `size_t`.
pub record IsCommand (c : Command) : Type 0 where
  pub msg_type_fits : c.msg_type < 16
  pub flags_fits : c.flags < 16
  pub serial_fits : c.serial < 16
  pub cmd_id_fits : IsU32 c.cmd_id
  pub small : length (layout c) < 2 ^ 32

-- The allocations that the function makes succeed.
pub record HasRoom (P : Platform) (c : Command) : Type 0 where
  pub for_payload : 0 < length c.payload → allocates P (length c.payload) ≡ true
  pub for_frame : P.malloc (length (layout c)) ≡ true

pub counted_lem :
    (bytes : List ℕ)
    → length bytes < 2 ^ 32
    → write_u32_be (u32 (length bytes)) ++ bytes ≡ counted bytes
counted_lem bytes h =
    ap (λ (front : List ℕ). front ++ bytes)
      (ap write_u32_be (mod-eq_of_lt h) ∙ write_u32_be-be32 (length bytes) h)

session_field_lem :
    (s : Option (List ℕ))
    → length (session_part s) < 2 ^ 32
    → session_field (has_session s) (bytes_of s) ≡ session_part s
unfolding session_field
session_field_lem none h = refl
session_field_lem (some sid) h = counted_lem sid (omega arith)

copy_payload_lem :
    (P : Platform) (payload : List ℕ)
    → (0 < length payload → allocates P (length payload) ≡ true)
    → copy_payload P (some payload) ≡ some payload
unfolding copy_payload
copy_payload_lem P [] room = refl
copy_payload_lem P (x ∷ xs) room = ground (arith, room (omega arith))

size_of_layout :
    (c : Command)
    → length (layout c) ≡ 8 + length (session_part c.session) + length (counted c.payload)
size_of_layout c = omega (arith, length-append (session_part c.session) (counted c.payload))

write_frame_lem :
    (c : Command)
    → IsCommand c
    → write_frame c.msg_type c.flags c.serial c.cmd_id
        (has_session c.session)
        (bytes_of c.session)
        c.payload
      ≡ layout c
unfolding write_frame
write_frame_lem c v = rw (
  generate_header_lem 0 0 0 0 c.msg_type c.flags c.serial compress_none [] v.msg_type_fits
      v.flags_fits v.serial_fits (omega arith),
  write_u32_be-be32 c.cmd_id v.cmd_id_fits,
  session_field_lem c.session (omega (arith, size_of_layout c)),
  counted_lem c.payload (omega (arith, size_of_layout c)),
)

command_size_lem :
    (s : Option (List ℕ)) (payload : List ℕ)
    → 8 + length (session_part s) + length (counted payload) < 2 ^ 32
    → command_size (has_session s) (length (bytes_of s)) (length payload)
      ≡ 8 + length (session_part s) + length (counted payload)
unfolding command_size
command_size_lem none payload h = omega arith
command_size_lem (some sid) payload h = omega arith

-- A command whose fields fit, given memory for its payload and its frame, is written as a header of
-- four bytes, of which the first is 0x11 and the third names no compression, whatever was asked for;
-- then come the number of the command, the session id behind its length where there is one, and the
-- payload behind its length, all numbers with the high byte first; and the reported length is that of
-- the frame.
pub build_command-layout :
    (P : Platform) (compress : ℕ) (c : Command)
    → IsCommand c
    → HasRoom P c
    → build_command P c.msg_type c.flags c.serial compress c.cmd_id c.session
        (some c.payload)
        (has_session c.session)
      ≡ some (layout c, length (layout c))
unfolding build_command
build_command-layout P compress c v room = rw (
  build_command,
  copy_payload_lem P c.payload room.for_payload,
  command_size_lem c.session c.payload (omega (arith, v.small, size_of_layout c)),
  write_frame_lem c v,
  ← size_of_layout c,
  room.for_frame,
)
