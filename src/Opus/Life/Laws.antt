-- ===== src/Opus/Life/Laws.antt =====
-- What the decoder's set-up owns.
use esp32s3_box3_doubao.Common.{ℕ, ◌≡◌, true, List, arith, Exec, ok, ◌>>=◌, if◌then◌else◌}
use esp32s3_box3_doubao.WsClient.Lifecycle.{Blocks, acquire, release}
use esp32s3_box3_doubao.Opus.Life.{
  InitEnv, init_buffer, init_decoder, opus_proc_init, opus_proc_set_output_cb, opus_proc_cleanup,
}

-- As the firmware uses it: cleaned up, twice even, if it was set up.
abbrev pub life : InitEnv → Blocks → Exec (List ℕ)
life env h = do
  (made, proc, h1) ← opus_proc_init env h
  if made
      then (do
        (clean, h2) ← opus_proc_cleanup (opus_proc_set_output_cb proc true) h1
        (again, h3) ← opus_proc_cleanup clean h2
        ok h3.live)
      else ok h1.live

-- Whichever of its allocations fail, the set-up of the decoder gives back all it took when it fails;
-- when it succeeds, cleaning up gives all back, and cleaning up once more does nothing.
pub life_balanced : (env : InitEnv) (h : Blocks) → life env h ≡ ok h.live
unfolding opus_proc_init init_decoder init_buffer opus_proc_set_output_cb opus_proc_cleanup acquire
    release ◌>>=◌
life_balanced env h = ground arith
