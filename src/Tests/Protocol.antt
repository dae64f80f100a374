-- ===== src/Tests/Protocol.antt =====
-- The protocol's theorems at concrete messages.
use esp32s3_box3_doubao.Common.{
  ◌≡◌, ◌≢◌, refl, inl, some, [], ◌∷◌, arith, ok, fault, ◌>>=◌, Ensures,
}
use esp32s3_box3_doubao.Protocol.Constants.{msg_server_full_response, serial_json, compress_none}
use esp32s3_box3_doubao.Protocol.Wire.{generate_header, read_u32_be}
use esp32s3_box3_doubao.Protocol.Wire.Laws.{generate_header_lem, read_u32_be-be32}
use esp32s3_box3_doubao.Protocol.Gzip.{gzip_decompress, output_size}
use esp32s3_box3_doubao.Protocol.Gzip.Safety.{Decoded, gzip_decompress-safe}
use esp32s3_box3_doubao.Protocol.Response.{parse_response}
use esp32s3_box3_doubao.Protocol.Response.Encode.{encode}
use esp32s3_box3_doubao.Protocol.Response.Safety.{parse_response-ne-fault}
use esp32s3_box3_doubao.Protocol.Response.RoundTrip.{received, IsMessage, parse_response-encode}
use esp32s3_box3_doubao.Protocol.Compress.{crc32_calc, deflate_bound, gzip_compress}
use esp32s3_box3_doubao.Protocol.Compress.Laws.{Miniz, gzip_decompress-compress}
use esp32s3_box3_doubao.Tests.Fixtures.{board, asr_message}

generate_header_example :
    generate_header (0 ∷ 0 ∷ 0 ∷ 0 ∷ []) 4 1 4 1 0 ≡ some (0x11 ∷ 0x14 ∷ 0x10 ∷ 0 ∷ [])
generate_header_example =
    generate_header_lem 0 0 0 0 1 4 1 0 [] (omega arith) (omega arith) (omega arith) (omega arith)

read_u32_be-be32_example : read_u32_be (9 ∷ 0 ∷ 0 ∷ 1 ∷ 3 ∷ []) 1 ≡ ok 259
read_u32_be-be32_example = read_u32_be-be32 (9 ∷ 0 ∷ 0 ∷ 1 ∷ 3 ∷ []) 1 259 [] (omega arith) refl

parse_response-ne-fault_example : parse_response board (0x1f ∷ 0x90 ∷ 0 ∷ 0 ∷ []) ≢ fault
parse_response-ne-fault_example =
    parse_response-ne-fault board (0x1f ∷ 0x90 ∷ 0 ∷ 0 ∷ []) (omega arith)

gzip_decompress-safe_example :
    Ensures (Decoded board (31 ∷ 139 ∷ [])) (gzip_decompress board (31 ∷ 139 ∷ []))
gzip_decompress-safe_example = gzip_decompress-safe board (31 ∷ 139 ∷ []) (omega arith)

asr_message-IsMessage : IsMessage asr_message
asr_message-IsMessage = record {
  sequence_fits = omega arith;
  event_fits = omega arith;
  session_fits = omega arith;
  size_fits = omega arith;
  size_nonzero = omega arith;
  body_nonempty = omega arith;
  payload_small = omega arith;
}

parse_response-encode_example :
    parse_response board (encode msg_server_full_response serial_json compress_none asr_message)
    ≡ ok (received msg_server_full_response serial_json asr_message)
parse_response-encode_example =
    parse_response-encode board msg_server_full_response serial_json compress_none asr_message
      (inl refl) (omega arith) (omega arith) (omega arith) refl asr_message-IsMessage

-- The trailer that is kept for "{}" holds its checksum.
crc32_of_empty_object : crc32_calc (123 ∷ 125 ∷ []) ≡ 0xa3a6bf43
unfolding crc32_calc
crc32_of_empty_object = refl

copied-Miniz : Miniz board (1 ∷ 2 ∷ 3 ∷ []) (1 ∷ 2 ∷ 3 ∷ [])
copied-Miniz = record {
  init_okay = refl;
  deflated = refl;
  stream_fits = unfold deflate_bound in omega arith;
  stream_nonempty = omega arith;
  no_zlib = λ n. refl;
  inflated = λ n h. refl;
}

gzip_decompress-compress_example :
    (gzip_compress board (1 ∷ 2 ∷ 3 ∷ []) >>= gzip_decompress board) ≡ ok (1 ∷ 2 ∷ 3 ∷ [])
gzip_decompress-compress_example =
    gzip_decompress-compress board (1 ∷ 2 ∷ 3 ∷ []) (1 ∷ 2 ∷ 3 ∷ []) copied-Miniz (omega arith)
      (omega arith) (λ n. refl) (unfold output_size in omega arith)
