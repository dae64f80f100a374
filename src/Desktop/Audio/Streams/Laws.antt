-- ===== src/Desktop/Audio/Streams/Laws.antt =====
-- What the audio of the desktop client owns.
use esp32s3_box3_doubao.Common.{
  ◌∷◌, not, ◌+◌, ℕ, ◌≡◌, Bool, ◌&&◌, List, arith, Exec, ok, fault, ◌>>=◌, if◌then◌else◌,
}
use esp32s3_box3_doubao.WsClient.Lifecycle.{Blocks, acquire, release}
use esp32s3_box3_doubao.Desktop.Audio.Streams.{
  audio_init, audio_open_input, audio_open_output, audio_cleanup,
}

-- Which calls of libopus, of PortAudio and of pthread succeed.
pub record OpenEnv : Type 0 where
  pub encoder_ok : Bool
  pub decoder_ok : Bool
  pub portaudio_ok : Bool
  pub output_open : Bool
  pub output_start : Bool
  pub thread_ok : Bool
  pub input_open : Bool
  pub input_start : Bool

abbrev has_codecs : OpenEnv → Bool
has_codecs env = env.encoder_ok && env.decoder_ok

abbrev has_thread : OpenEnv → Bool
has_thread env = env.output_open && env.output_start && env.thread_ok

-- What `main` does with the audio: if it can be set up, the speaker is opened, the microphone if that
-- succeeds, and whatever comes of it, `audio_cleanup` follows.
abbrev pub opened_life : OpenEnv → Blocks → Exec (List ℕ)
opened_life env h = do
  (made, am, h1) ← audio_init env.encoder_ok env.decoder_ok env.portaudio_ok h
  let (speaks, am', h2) = audio_open_output env.output_open env.output_start env.thread_ok am h1
  let (hears, am'', h3) = audio_open_input env.input_open env.input_start am' h2
  if not made
      then ok h1.live
      else if speaks
      then (do (end, h4) ← audio_cleanup am'' h3; ok h4.live)
      else (do (end, h4) ← audio_cleanup am' h2; ok h4.live)

-- With a player thread all is closed that was opened, whether the microphone opens, starts or neither;
-- without one, because the speaker does not open or start or the thread cannot be made, the cleaning
-- up joins a thread that was never created. Codecs that cannot be made leave nothing behind;
-- PortAudio that does not start leaves both codecs.
pub opened_life_lem :
    (env : OpenEnv) (h : Blocks)
    → opened_life env h ≡ (
        if not (has_codecs env)
        then ok h.live
        else if not env.portaudio_ok
        then ok ((h.next + 1) ∷ h.next ∷ h.live)
        else if has_thread env
        then ok h.live
        else fault)
unfolding audio_init audio_open_input audio_open_output audio_cleanup acquire release ◌>>=◌
opened_life_lem env h = ground arith
