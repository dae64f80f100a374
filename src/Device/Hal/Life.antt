-- ===== src/Device/Hal/Life.antt =====
-- What `audio_hal_init` leaves in use.
use esp32s3_box3_doubao.Common.{
  ℕ, ◌+◌, ◌≡◌, refl, ap, ◌∙◌, Bool, true, false, ◌&&◌, Option, none, some, List, [], ◌∷◌, ◌++◌,
  append_assoc, sym, arith, is_some, Exec, ok, ◌>>=◌,
}
use esp32s3_box3_doubao.WsClient.Lifecycle.{Blocks, acquire, release}
use esp32s3_box3_doubao.Device.Hal.{
  RingEnv, RingBuffer, create_psram_ringbuf, HalEnv, Hal, no_hal, create_buffers, audio_hal_init,
}

abbrev ring_ok : RingEnv → Bool
ring_ok env = env.struct_ok && env.storage_ok && env.create_ok

abbrev pub devices_ok : HalEnv → Bool
devices_ok env =
    env.i2c_ok && env.audio_ok && env.speaker_ok && env.speaker_open_ok && env.microphone_ok
    && env.microphone_open_ok

abbrev id_of : Option ℕ → List ℕ
id_of none = []
id_of (some b) = b ∷ []

abbrev owned : Option RingBuffer → List ℕ
owned none = []
owned (some rb) = id_of rb.rb_storage ++ id_of rb.rb_struct

-- The blocks that the static variables hold.
abbrev held_by : Hal → List ℕ
held_by hal = owned hal.ref_rb ++ (owned hal.playback_rb ++ owned hal.capture_rb)

Makes : RingEnv → Blocks → Type 0
Makes env h =
    (rb : Option RingBuffer) × (h' : Blocks) × (create_psram_ringbuf env h ≡ ok (rb, h'))
    × (is_some rb ≡ ring_ok env)
    × (h'.live ≡ owned rb ++ h.live)

-- A ring buffer takes two blocks, or none.
create_psram_ringbuf-Makes :
    (made stored created : Bool) (h : Blocks)
    → Makes (record { struct_ok = made; storage_ok = stored; create_ok = created }) h
unfolding Makes create_psram_ringbuf acquire release ◌>>=◌
create_psram_ringbuf-Makes true true true h = (
  some (record { rb_struct = some h.next; rb_storage = some (h.next + 1) }),
  record { next = h.next + 1 + 1; live = (h.next + 1) ∷ h.next ∷ h.live },
  refl,
  refl,
  refl,
)
create_psram_ringbuf-Makes true true false h =
    (none, record { next = h.next + 1 + 1; live = h.live }, ground arith, refl, refl)
create_psram_ringbuf-Makes true false created h =
    (none, record { next = h.next + 1; live = h.live }, ground arith, refl, refl)
create_psram_ringbuf-Makes false true created h =
    (none, record { next = h.next + 1; live = h.live }, ground arith, refl, refl)
create_psram_ringbuf-Makes false false created h = (none, h, refl, refl, refl)

made_as : (env : RingEnv) (h : Blocks) → Makes env h
made_as env h = create_psram_ringbuf-Makes env.struct_ok env.storage_ok env.create_ok h

-- How the set-up ends: with all in place or not, and no block in use but those that were and those
-- that the static variables hold.
abbrev pub SetsUp : Bool → Exec (Bool × Hal × Blocks) → Blocks → Type 0
SetsUp all r h =
    (hal : Hal) × (h' : Blocks) × (r ≡ ok (all, hal, h')) × (h'.live ≡ held_by hal ++ h.live)

abbrev pub buffers_ok : HalEnv → Bool
buffers_ok env = ring_ok env.capture && (ring_ok env.playback && ring_ok env.ref)

module _ (env : HalEnv) (speaker microphone : Bool) (h : Blocks) where
  abbrev devices : Hal
  devices = record no_hal { play_dev = speaker; rec_dev = microphone }

  create_buffers-SetsUp : SetsUp (buffers_ok env) (create_buffers env devices h) h
  unfolding create_buffers ◌>>=◌ Makes
  create_buffers-SetsUp =
      let (capture', h1, e1, s1, l1) = made_as env.capture h in capture_case capture' h1 e1 s1 l1
    where
      ref_case :
          (c p : RingBuffer) (h1 h2 : Blocks)
          → create_psram_ringbuf env.capture h ≡ ok (some c, h1)
          → create_psram_ringbuf env.playback h1 ≡ ok (some p, h2)
          → true ≡ ring_ok env.capture
          → true ≡ ring_ok env.playback
          → h2.live ≡ (owned (some p) ++ owned (some c)) ++ h.live
          → SetsUp (buffers_ok env) (create_buffers env devices h) h
      ref_case c p h1 h2 e1 e2 s1 s2 l =
          let (ref', h3, e3, s3, l3) = made_as env.ref h2 in
          (
            record devices { capture_rb = some c; playback_rb = some p; ref_rb = ref' },
            h3,
            rw (e1, e2, e3, sym s1, sym s2, sym s3) refl,
            l3
                ∙ ap (λ x. owned ref' ++ x) l
                ∙ sym (append_assoc (owned ref') (owned (some p) ++ owned (some c)) h.live),
          )

      playback_case :
          (c : RingBuffer) (playback' : Option RingBuffer) (h1 h2 : Blocks)
          → create_psram_ringbuf env.capture h ≡ ok (some c, h1)
          → true ≡ ring_ok env.capture
          → h1.live ≡ owned (some c) ++ h.live
          → create_psram_ringbuf env.playback h1 ≡ ok (playback', h2)
          → is_some playback' ≡ ring_ok env.playback
          → h2.live ≡ owned playback' ++ h1.live
          → SetsUp (buffers_ok env) (create_buffers env devices h) h
      playback_case c none h1 h2 e1 s1 l1 e2 s2 l2 =
          (record devices { capture_rb = some c }, h2, rw (e1, e2, sym s1, sym s2) refl, l2 ∙ l1)
      playback_case c (some p) h1 h2 e1 s1 l1 e2 s2 l2 = ref_case c p h1 h2 e1 e2 s1 s2 (
          l2
          ∙ ap (λ x. owned (some p) ++ x) l1
          ∙ sym (append_assoc (owned (some p)) (owned (some c)) h.live))

      capture_case :
          (capture' : Option RingBuffer) (h1 : Blocks)
          → create_psram_ringbuf env.capture h ≡ ok (capture', h1)
          → is_some capture' ≡ ring_ok env.capture
          → h1.live ≡ owned capture' ++ h.live
          → SetsUp (buffers_ok env) (create_buffers env devices h) h
      capture_case none h1 e1 s1 l1 = (devices, h1, rw (e1, sym s1) refl, l1)
      capture_case (some c) h1 e1 s1 l1 =
          let (playback', h2, e2, s2, l2) = made_as env.playback h1 in
          playback_case c playback' h1 h2 e1 s1 l1 e2 s2 l2

by_devices :
    (i2c audio speaker speaker_open microphone microphone_open : Bool)
    → (capture playback ref : RingEnv) (h : Blocks)
    → let env : HalEnv = record {
      i2c_ok = i2c;
      audio_ok = audio;
      speaker_ok = speaker;
      speaker_open_ok = speaker_open;
      microphone_ok = microphone;
      microphone_open_ok = microphone_open;
      capture = capture;
      playback = playback;
      ref = ref;
    } in
      SetsUp (devices_ok env && buffers_ok env) (audio_hal_init env no_hal h) h
unfolding audio_hal_init
by_devices false audio s so m mo capture playback ref h = (no_hal, h, refl, refl)
by_devices true false s so m mo capture playback ref h = (no_hal, h, refl, refl)
by_devices true true false so m mo capture playback ref h = (no_hal, h, refl, refl)
by_devices true true true false m mo capture playback ref h =
    (record no_hal { play_dev = true }, h, refl, refl)
by_devices true true true true false mo capture playback ref h =
    (record no_hal { play_dev = true }, h, refl, refl)
by_devices true true true true true false capture playback ref h =
    (record no_hal { play_dev = true; rec_dev = true }, h, refl, refl)
by_devices true true true true true true capture playback ref h =
    create_buffers-SetsUp
      (record {
        i2c_ok = true;
        audio_ok = true;
        speaker_ok = true;
        speaker_open_ok = true;
        microphone_ok = true;
        microphone_open_ok = true;
        capture = capture;
        playback = playback;
        ref = ref;
      })
      true true h

-- The set-up of the audio hardware succeeds just when every call does, and wherever it stops, the
-- blocks in use are those that were in use and those of the ring buffers that the static variables
-- hold: one that cannot be made leaves nothing behind.
pub audio_hal_init-SetsUp :
    (env : HalEnv) (h : Blocks)
    → SetsUp (devices_ok env && buffers_ok env) (audio_hal_init env no_hal h) h
audio_hal_init-SetsUp env h =
    by_devices env.i2c_ok env.audio_ok env.speaker_ok env.speaker_open_ok env.microphone_ok
      env.microphone_open_ok env.capture env.playback env.ref h
