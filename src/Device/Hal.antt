-- ===== src/Device/Hal.antt =====
-- main/audio_hal.c, over the set of blocks in use.
pub mod Life
use esp32s3_box3_doubao.Common.{
  ℕ, ◌+◌, Bool, true, false, not, ◌&&◌, Option, none, some, List, [], length, is_some, Exec, ok,
  ◌>>=◌, if◌then◌else◌,
}
use esp32s3_box3_doubao.WsClient.Lifecycle.{Blocks, acquire, release}
use esp32s3_box3_doubao.Device.Ring.{Contiguous, drain_ringbuf}

-- Which calls succeed: the allocations of a ring buffer's structure and storage, and
-- `xRingbufferCreateStatic`.
pub record RingEnv : Type 0 where
  pub struct_ok : Bool
  pub storage_ok : Bool
  pub create_ok : Bool

-- The blocks of a ring buffer.
pub record RingBuffer : Type 0 where
  pub rb_struct : Option ℕ
  pub rb_storage : Option ℕ

unfoldable pub create_psram_ringbuf : RingEnv → Blocks → Exec (Option RingBuffer × Blocks)
create_psram_ringbuf env h =
    let (struct', h1) = acquire env.struct_ok h in
    let (storage, h2) = acquire env.storage_ok h1 in
    if env.struct_ok && env.storage_ok && env.create_ok
    then ok (some (record { rb_struct = struct'; rb_storage = storage }), h2)
    else (do no_struct ← release struct' h2; freed ← release storage no_struct; ok (none, freed))

-- The calls of the board support package and of the codec, in the order of `audio_hal_init`.
pub record HalEnv : Type 0 where
  pub i2c_ok : Bool
  pub audio_ok : Bool
  pub speaker_ok : Bool
  pub speaker_open_ok : Bool
  pub microphone_ok : Bool
  pub microphone_open_ok : Bool
  pub capture : RingEnv
  pub playback : RingEnv
  pub ref : RingEnv

-- The static variables; a device is there or NULL.
pub record Hal : Type 0 where
  pub capture_rb : Option RingBuffer
  pub playback_rb : Option RingBuffer
  pub ref_rb : Option RingBuffer
  pub play_dev : Bool
  pub rec_dev : Bool

abbrev pub no_hal : Hal
no_hal = record {
  capture_rb = none;
  playback_rb = none;
  ref_rb = none;
  play_dev = false;
  rec_dev = false;
}

-- Step 5: each ring buffer in turn, up to the first that cannot be made.
unfoldable pub create_buffers : HalEnv → Hal → Blocks → Exec (Bool × Hal × Blocks)
unfolding create_psram_ringbuf
create_buffers env hal h = do
  (capture', h1) ← create_psram_ringbuf env.capture h
  let with_capture = record hal { capture_rb = capture' }
  if not (is_some capture') then ok (false, with_capture, h1) else (do
    (playback', h2) ← create_psram_ringbuf env.playback h1
    let with_playback = record with_capture { playback_rb = playback' }
    if not (is_some playback') then ok (false, with_playback, h2) else (do
      (ref', h3) ← create_psram_ringbuf env.ref h2
      ok (is_some ref', record with_playback { ref_rb = ref' }, h3)))

-- Whether it returns 0. What was made before a failure stays.
unfoldable pub audio_hal_init : HalEnv → Hal → Blocks → Exec (Bool × Hal × Blocks)
unfolding create_buffers
audio_hal_init env hal h =
    let with_speaker = record hal { play_dev = env.speaker_ok } in
    let with_microphone = record with_speaker { rec_dev = env.microphone_ok } in
    if not env.i2c_ok
    then ok (false, hal, h)
    else if not env.audio_ok
    then ok (false, hal, h)
    else if not env.speaker_ok
    then ok (false, with_speaker, h)
    else if not env.speaker_open_ok
    then ok (false, with_speaker, h)
    else if not env.microphone_ok
    then ok (false, with_microphone, h)
    else if not env.microphone_open_ok
    then ok (false, with_microphone, h)
    else create_buffers env with_microphone h

-- The bytes read, or `none` for -1; `read` is what `esp_codec_dev_read` fills the buffer with.
unfoldable pub audio_hal_read_stereo : Hal → Option (List ℕ) → Option (List ℕ)
audio_hal_read_stereo hal read = if not hal.rec_dev then none else read

-- The number of bytes, or `none` for -1.
unfoldable pub audio_hal_write : (List ℕ → Bool) → Hal → List ℕ → Option ℕ
audio_hal_write codec_write hal buf =
    if not hal.play_dev then none else if not (codec_write buf) then none else some (length buf)

-- `audio_hal_clear_playback`, `audio_hal_clear_capture` or `audio_hal_clear_ref`, with the bytes that
-- are queued; a buffer that is not there is left alone.
unfoldable pub clear : ℕ → Contiguous → Option RingBuffer → List ℕ → Exec (List ℕ)
clear fuel part none queued = ok queued
clear fuel part (some rb) queued = drain_ringbuf fuel part queued

-- The devices are closed; the ring buffers stay.
unfoldable pub audio_hal_deinit : Hal → Hal
audio_hal_deinit hal = record hal { play_dev = false; rec_dev = false }
