-- ===== src/Tests/Decoder.antt =====
-- The decoder's theorems at a concrete stream.
use esp32s3_box3_doubao.Common.{◌≡◌, refl, inl, [], ◌∷◌, true, arith}
use esp32s3_box3_doubao.Opus.{Opus, process_packets, process_page}
use esp32s3_box3_doubao.Opus.Laws.{
  Agrees, process_packets-skip, after_all, reset, begun, opus_proc_reset_ogg-Agrees,
  process_page-starts,
}
use esp32s3_box3_doubao.Tests.Fixtures.{echo_codec, fresh_decoder, first_page}

fresh_decoder-Agrees : Agrees fresh_decoder
fresh_decoder-Agrees = record { counted = omega arith; flagged = refl }

process_packets-skip_example :
    (process_packets echo_codec fresh_decoder ((1 ∷ []) ∷ (2 ∷ []) ∷ (3 ∷ []) ∷ [])).1
    ≡ (3 ∷ []) ∷ []
process_packets-skip_example =
    process_packets-skip echo_codec fresh_decoder ((1 ∷ []) ∷ (2 ∷ []) ∷ (3 ∷ []) ∷ [])
      fresh_decoder-Agrees

-- The flag and the counter disagree.
abbrev spoilt : Opus
spoilt = record fresh_decoder { ogg_headers_parsed = true; ogg_header_count = 7 }

opus_proc_reset_ogg-Agrees_example :
    Agrees (after_all echo_codec (begun echo_codec spoilt reset) ((1 ∷ []) ∷ (2 ∷ []) ∷ []))
opus_proc_reset_ogg-Agrees_example =
    opus_proc_reset_ogg-Agrees echo_codec spoilt reset ((1 ∷ []) ∷ (2 ∷ []) ∷ [])

process_page-starts_example : (process_page echo_codec fresh_decoder first_page).1 ≡ (1 ∷ []) ∷ []
process_page-starts_example = process_page-starts echo_codec fresh_decoder first_page (inl refl)
