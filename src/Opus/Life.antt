-- ===== src/Opus/Life.antt =====
-- `opus_proc_init`, `opus_proc_set_output_cb` and `opus_proc_cleanup` of main/opus_processor.c, over
-- the set of blocks and handles in use; and `opus_proc_encode`.
pub mod Laws
use esp32s3_box3_doubao.Common.{
  ℕ, Bool, true, false, not, ◌||◌, Option, none, some, List, [], ◌∷◌, length, take, Exec, ok, fail,
  ◌>>=◌, if◌then◌else◌,
}
use esp32s3_box3_doubao.WsClient.Lifecycle.{Blocks, acquire, release}

-- The pointers of `opus_processor_t`.
pub record Processor : Type 0 where
  pub encoder : Option ℕ
  pub decoder : Option ℕ
  pub decode_buf : Option ℕ
  pub has_pcm_cb : Bool
  pub ogg_stream_inited : Bool

abbrev pub cleared : Processor
cleared = record {
  encoder = none;
  decoder = none;
  decode_buf = none;
  has_pcm_cb = false;
  ogg_stream_inited = false;
}

-- Which of the calls succeed: the creation of the encoder and of the decoder, the allocation in
-- PSRAM, and the one that follows if that fails.
pub record InitEnv : Type 0 where
  pub encoder_ok : Bool
  pub decoder_ok : Bool
  pub spiram_ok : Bool
  pub malloc_ok : Bool

-- The first component is whether the function returns 0. The pointers keep the addresses of what has
-- been destroyed.
unfoldable pub init_buffer : InitEnv → Processor → Blocks → Exec (Bool × Processor × Blocks)
init_buffer env proc h =
    let (buf, h') = acquire (env.spiram_ok || env.malloc_ok) h in
    let held = record proc { decode_buf = buf } in
    if env.spiram_ok || env.malloc_ok then ok (true, held, h') else (do
      without_decoder ← release proc.decoder h'
      without_both ← release proc.encoder without_decoder
      ok (false, held, without_both))

unfoldable pub init_decoder : InitEnv → Processor → Blocks → Exec (Bool × Processor × Blocks)
unfolding init_buffer
init_decoder env proc h =
    let (decoder', h') = acquire env.decoder_ok h in
    let held = record proc { decoder = decoder' } in
    if not env.decoder_ok
    then (do without ← release proc.encoder h'; ok (false, held, without))
    else init_buffer env held h'

unfoldable pub opus_proc_init : InitEnv → Blocks → Exec (Bool × Processor × Blocks)
unfolding init_decoder
opus_proc_init env h =
    let (encoder', h') = acquire env.encoder_ok h in
    let held = record cleared { encoder = encoder' } in
    if not env.encoder_ok then ok (false, held, h') else init_decoder env held h'

unfoldable pub opus_proc_set_output_cb : Processor → Bool → Processor
opus_proc_set_output_cb proc cb = record proc { has_pcm_cb = cb }

unfoldable pub opus_proc_cleanup : Processor → Blocks → Exec (Processor × Blocks)
opus_proc_cleanup proc h = do
  without_encoder ← release proc.encoder h
  without_decoder ← release proc.decoder without_encoder
  freed ← release proc.decode_buf without_decoder
  ok (
    record proc { encoder = none; decoder = none; decode_buf = none; ogg_stream_inited = false },
    freed,
  )

-- What `opus_encode` returns: the encoded bytes, or a negative number.
unfoldable pub opus_proc_encode :
    (List ℕ → ℕ → Option (List ℕ)) → Processor → List ℕ → ℕ → Option (List ℕ)
opus_proc_encode opus_encode proc pcm max_out = elim proc.encoder [
  | none ↦ none
  | some encoder ↦ opus_encode pcm max_out
]
