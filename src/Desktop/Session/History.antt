-- ===== src/Desktop/Session/History.antt =====
-- What a session has become, from the messages that it has received.
use esp32s3_box3_doubao.Common.{
  ℕ, ◌<◌, ◌≡◌, refl, ◌∙◌, Bool, true, false, not, ◌&&◌, ◌||◌, List, [], ◌∷◌, ◌++◌, arith, Exec, ok,
  ◌>>=◌, if◌then◌else◌, Bool-cases, inl, inr,
}
use esp32s3_box3_doubao.Opus.{Codec, Opus, opus_proc_reset_ogg}
use esp32s3_box3_doubao.Desktop.Host.{Host}
use esp32s3_box3_doubao.Desktop.Audio.Decode.{Manager, audio_decode_ogg_opus, audio_reset_ogg_state}
use esp32s3_box3_doubao.Desktop.Audio.Decode.Device.{device_of}
use esp32s3_box3_doubao.Desktop.Audio.Decode.Saving.{small_cap, IsSaving}
use esp32s3_box3_doubao.Desktop.Audio.Decode.Agreement.{decode_lem}
use esp32s3_box3_doubao.Desktop.Session.{
  Session, Action, clear_queue, signal_hello, enqueue_all, receive_audio, clear_cache, tts_ended,
}
use esp32s3_box3_doubao.Desktop.Session.Heard.{
  Said, speech, barge_in, query_end, reply_end, finished, broken, nothing, is_reply_end,
  is_finished, is_broken, querying, ever, AllShort, answers, on_said, receive_all, AreHeard,
  run_said, receive_all_lem,
}

module _ (H : Host) (C : Codec) where
  -- The history of a session: its flags, and the calls that it has made.
  abbrev pub Became : Exec (Session × List Action) → Session → List Said → Type 0
  Became r s said =
      (end : Session) × (r ≡ ok (end, answers C (device_of s.audio) s.say_hello_done said))
      × (end.say_hello_done ≡ (s.say_hello_done || ever is_reply_end said))
      × (end.session_finished ≡ (s.session_finished || ever is_finished said))
      × (end.running ≡ (s.running && not (ever is_broken said)))
      × (end.user_querying ≡ querying said s.user_querying)

-- A session that plays: its decoder is there, and what it saves is in order.
pub record IsPlaying (s : Session) : Type 0 where
  pub has_audio : s.has_audio ≡ true
  pub ready : s.audio.opus_decoder ≡ true
  pub saving : IsSaving s.audio

module _ (H : Host) (C : Codec) (s : Session) where
  clear_cache_lem :
      s.has_audio ≡ true
      → clear_cache H C s ≡ (
        record s { audio = audio_reset_ogg_state C s.audio; user_querying = true },
        clear_queue ∷ [],
      )
  unfolding clear_cache
  clear_cache_lem plays = rw plays refl

  tts_ended_lem :
      tts_ended H C s
      ≡ (record s { say_hello_done = true }, if s.say_hello_done then [] else signal_hello ∷ [])
  unfolding tts_ended
  tts_ended_lem = elim (Bool-cases s.say_hello_done) [
    | inl done ↦ rw done refl
    | inr waiting ↦ rw waiting refl
  ]

  answers-reply_end :
      (proc : Opus) (done : Bool) (said : List Said)
      → answers C proc done (reply_end ∷ said)
        ≡ (if done then [] else signal_hello ∷ []) ++ answers C proc true said
  answers-reply_end proc true said = refl
  answers-reply_end proc false said = refl

  receive_audio_lem :
      (bytes : List ℕ) (audio' : Manager) (out : List (List ℕ))
      → s.has_audio ≡ true
      → audio_decode_ogg_opus C H s.audio bytes ≡ ok (audio', out)
      → receive_audio H C bytes s ≡ ok (record s { audio = audio' }, enqueue_all out)
  unfolding receive_audio ◌>>=◌
  receive_audio_lem bytes audio' out plays e = rw (e, plays) refl

module _ (H : Host) (C : Codec) (limit : (n : ℕ) → H.realloc n ≡ true → n < small_cap) where
  run_said-Became :
      (said : List Said) (s : Session)
      → IsPlaying s
      → AllShort said
      → Became H C (run_said H C said s) s said
  unfolding run_said on_said audio_reset_ogg_state opus_proc_reset_ogg ◌>>=◌
  run_said-Became [] s v short = (s, refl, ground arith, ground arith, ground arith, refl)
  run_said-Became (query_end ∷ said) s v (_, short) =
      let (end, e, d, f, r, q) =
        run_said-Became said (record s { user_querying = false })
          (record { has_audio = v.has_audio; ready = v.ready; saving = v.saving }) short in
      (end, rw e refl, d, f, r, q)
  run_said-Became (finished ∷ said) s v (_, short) =
      let (end, e, d, f, r, q) =
        run_said-Became said (record s { session_finished = true })
          (record { has_audio = v.has_audio; ready = v.ready; saving = v.saving }) short in
      (end, rw e refl, d, ground (arith, f), r, q)
  run_said-Became (broken ∷ said) s v (_, short) =
      let (end, e, d, f, r, q) =
        run_said-Became said (record s { running = false })
          (record { has_audio = v.has_audio; ready = v.ready; saving = v.saving }) short in
      (end, rw e refl, d, f, ground (arith, r), q)
  run_said-Became (nothing ∷ said) s v (_, short) =
      let (end, e, d, f, r, q) = run_said-Became said s v short in (end, rw e refl, d, f, r, q)
  run_said-Became (barge_in ∷ said) s v (_, short) =
      let (end, e, d, f, r, q) =
        run_said-Became said
          (record s { audio = audio_reset_ogg_state C s.audio; user_querying = true })
          (record {
            has_audio = v.has_audio;
            ready = v.ready;
            saving = record {
              small = v.saving.small;
              fits = v.saving.fits;
              there = v.saving.there;
            };
          })
          short in
      (end, rw (clear_cache_lem H C s v.has_audio, e) refl, d, f, r, q)
  run_said-Became (reply_end ∷ said) s v (_, short) =
      let (end, e, d, f, r, q) =
        run_said-Became said (record s { say_hello_done = true })
          (record { has_audio = v.has_audio; ready = v.ready; saving = v.saving }) short in
      (
        end,
        rw
            (
              tts_ended_lem H C s,
              e,
              answers-reply_end H C s (device_of s.audio) s.say_hello_done said,
            )
            refl,
        ground (arith, d),
        f,
        r,
        q,
      )
  run_said-Became (speech bytes ∷ said) s v (few, short) =
      let (audio', out, e, same, ready', saving') =
        decode_lem C H s.audio bytes limit few v.ready v.saving in
      let (end, e', d, f, r, q) =
        run_said-Became said (record s { audio = audio' })
          (record { has_audio = v.has_audio; ready = ready'; saving = saving' }) short in
      (
        end,
        rw (receive_audio_lem H C s bytes audio' out v.has_audio e, e', ← same) refl,
        d,
        f,
        r,
        q,
      )

-- Whatever messages a session that plays has been sent, as long as none makes the parser fault, its
-- flags say what was heard: the greeting has ended, the session is finished or broken, and whether
-- the user speaks; and the calls that it has made on its play queue are the samples that the
-- device's decoder makes of the speech, cut off at each barge-in, with one signal for the end of the
-- greeting. No block, and no speech, has 2 ^ 60 bytes or more.
pub receive_all-Became :
    (H : Host) (C : Codec) (fuel : ℕ) (messages : List (List ℕ)) (said : List Said) (s : Session)
    → ((n : ℕ) → H.realloc n ≡ true → n < small_cap)
    → IsPlaying s
    → AreHeard H C fuel messages said
    → AllShort said
    → Became H C (receive_all H C fuel messages s) s said
receive_all-Became H C fuel messages said s limit v heard short =
    let (end, e, d, f, r, q) = run_said-Became H C limit said s v short in
    (end, receive_all_lem H C fuel messages said s heard ∙ e, d, f, r, q)
