-- ===== src/Desktop/Audio/Streams.antt =====
-- What doubao_c_version/audio.c opens and closes: `audio_init`, `audio_open_input`,
-- `audio_open_output`, `audio_read_input_opus` and `audio_cleanup`, over the set of handles in use.
-- The play queue and the OGG state are in Queue and Decode.
pub mod Laws
use esp32s3_box3_doubao.Common.{
  ℕ, Bool, true, false, not, ◌&&◌, ◌||◌, Option, none, some, List, [], ◌∷◌, Exec, ok, fail, fault,
  ◌>>=◌, if◌then◌else◌,
}
use esp32s3_box3_doubao.WsClient.Lifecycle.{Blocks, acquire, release}

-- The handles of `audio_manager_t`.
pub record Streams : Type 0 where
  pub opus_encoder : Option ℕ
  pub opus_decoder : Option ℕ
  pub input_stream : Option ℕ
  pub output_stream : Option ℕ
  pub player_thread : Option ℕ
  pub ogg_buffer : Option ℕ
  pub playing : Bool

abbrev pub closed : Streams
closed = record {
  opus_encoder = none;
  opus_decoder = none;
  input_stream = none;
  output_stream = none;
  player_thread = none;
  ogg_buffer = none;
  playing = false;
}

-- Whether each function returns 0. A decoder that is not made takes the encoder with it, whose address
-- stays; PortAudio that does not start takes nothing with it.
unfoldable pub audio_init : Bool → Bool → Bool → Blocks → Exec (Bool × Streams × Blocks)
audio_init encoder_ok decoder_ok pa_ok h =
    let (encoder, h1) = acquire encoder_ok h in
    let (decoder, h2) = acquire decoder_ok h1 in
    let with_encoder = record closed { opus_encoder = encoder } in
    let with_both = record with_encoder { opus_decoder = decoder } in
    if not encoder_ok
    then ok (false, with_encoder, h1)
    else if not decoder_ok
    then (do without ← release encoder h2; ok (false, with_both, without))
    else ok (pa_ok, with_both, h2)

-- `Pa_OpenDefaultStream`, which leaves the pointer alone if it fails, and `Pa_StartStream`.
unfoldable pub audio_open_input : Bool → Bool → Streams → Blocks → Bool × Streams × Blocks
audio_open_input open_ok start_ok am h =
    let (stream, h') = acquire open_ok h in
    let held = record am { input_stream = stream } in
    if not open_ok then (false, am, h) else (start_ok, held, h')

unfoldable pub audio_open_output : Bool → Bool → Bool → Streams → Blocks → Bool × Streams × Blocks
audio_open_output open_ok start_ok thread_ok am h =
    let (stream, h1) = acquire open_ok h in
    let (thread, h2) = acquire thread_ok h1 in
    let held = record am { output_stream = stream } in
    if not open_ok
    then (false, am, h)
    else if not start_ok
    then (false, held, h1)
    else (thread_ok, record held { playing = true; player_thread = thread }, h2)

-- `pthread_join`: there must be a thread.
unfoldable pub join : Option ℕ → Blocks → Exec Blocks
join none h = fault
join (some thread) h = release (some thread) h

-- The streams are stopped and closed, and `ogg_buffer` and the codecs freed. Their addresses, but for
-- those of the streams, are forgotten. The queue and the state of libogg, which are destroyed too, are
-- not in `Streams`.
unfoldable pub audio_cleanup : Streams → Blocks → Exec (Streams × Blocks)
unfolding join
audio_cleanup am h = do
  joined ← join am.player_thread h
  no_input ← release am.input_stream joined
  no_output ← release am.output_stream no_input
  no_encoder ← release am.opus_encoder no_output
  no_decoder ← release am.opus_decoder no_encoder
  freed ← release am.ogg_buffer no_decoder
  ok (
    record am { playing = false; opus_encoder = none; opus_decoder = none; ogg_buffer = none },
    freed,
  )

-- What `Pa_ReadStream` and `opus_encode` give: `read` is none on an error other than
-- paInputOverflowed; `encode` is none for a negative number.
unfoldable pub audio_read_input_opus :
    Option (List ℕ) → Bool → (List ℕ → Option (List ℕ)) → Streams → Option (List ℕ)
audio_read_input_opus read malloc_ok encode am = elim am.input_stream [
  | none ↦ none
  | some stream ↦ elim am.opus_encoder [
    | none ↦ none
    | some encoder ↦ elim read [
      | none ↦ none
      | some pcm ↦ if not malloc_ok then none else encode pcm
    ]
  ]
]
