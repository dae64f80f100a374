-- ===== src/Device/Afe/Control/Life.antt =====
-- What the audio front end owns.
use esp32s3_box3_doubao.Common.{
  ℕ, ◌≡◌, Bool, true, not, ◌&&◌, List, arith, Exec, ok, fault, ◌>>=◌, if◌then◌else◌,
}
use esp32s3_box3_doubao.WsClient.Lifecycle.{Blocks, acquire, release}
use esp32s3_box3_doubao.Device.Afe.Control.{
  AfeEnv, Handler, idle_handler, create_afe, afe_handler_init, afe_handler_start,
  afe_handler_set_streaming, afe_handler_stop, afe_handler_deinit, feed_task_buffers,
}

-- Set up, started, with the buffers of its task, and brought down again, twice; after a failed set-up
-- brought down at once.
abbrev pub afe_life : AfeEnv → Bool → Bool → Bool → Bool → Blocks → Exec (Handler × List ℕ)
afe_life env created mic_ok ref_ok feed_ok h = do
  (made, s, h1) ← afe_handler_init env true idle_handler h
  if made
      then (do
        let s1 = afe_handler_set_streaming true (afe_handler_start created s)
        (entered, h2) ← feed_task_buffers mic_ok ref_ok feed_ok h1
        (s2, h3) ← afe_handler_deinit s1 h2
        (s3, h4) ← afe_handler_deinit s2 h3
        ok (s3, h4.live))
      else (do (s1, h2) ← afe_handler_deinit s h1; ok (s1, h2.live))

abbrev pub live_after : Exec (Handler × List ℕ) → Exec (List ℕ)
live_after r = do (s, live) ← r; ok live

-- Whichever call fails, the front end gives back what it took, and bringing it down once more is
-- harmless; but where the models load and the configuration cannot be made, its set-up writes through
-- a null pointer.
pub afe_life_balanced :
    (env : AfeEnv) (created mic_ok ref_ok feed_ok : Bool) (h : Blocks)
    → live_after (afe_life env created mic_ok ref_ok feed_ok h)
      ≡ (if env.models_ok && not env.config_ok then fault else ok h.live)
unfolding afe_handler_init create_afe afe_handler_start afe_handler_set_streaming afe_handler_stop
    afe_handler_deinit feed_task_buffers acquire release ◌>>=◌
afe_life_balanced env created mic_ok ref_ok feed_ok h = ground arith
