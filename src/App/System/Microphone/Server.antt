-- ===== src/App/System/Microphone/Server.antt =====
-- The task of the WebSocket client, and the callback of the wake word.
use esp32s3_box3_doubao.Common.{
  ℕ, ◌≡◌, refl, sym, ◌∙◌, inl, inr, Bool-cases, not, ◌||◌, Option, none, some, List, [], ◌∷◌, ◌==◌,
  arith,
}
use esp32s3_box3_doubao.Protocol.Response.{Response}
use esp32s3_box3_doubao.Opus.{opus_proc_decode_ogg}
use esp32s3_box3_doubao.App.State.{
  App, Env, connected_idle, set_app_state, set_hint, set_asr_text, set_tts_label, clear_playback,
  clear_capture, clear_ref, set_streaming, enable_wakenet, disable_wakenet, reset_ogg,
}
use esp32s3_box3_doubao.App.Display.{append_tts, note_reply_id}
use esp32s3_box3_doubao.App.Receive.{
  on_decoded_pcm, play_all, receive_audio, server_error, receive_ack,
}
use esp32s3_box3_doubao.App.Receive.Events.{
  WsPc, ready, log_sent, finish_session, with_text, with_item, string_field, json_payload,
  tts_text_event, asr_event, is_final, first_result, reply_event, start_listening,
  clear_cache_event, query_end_event, rest_screen, exit_intent, tts_ended_event,
  session_finish_event,
}
use esp32s3_box3_doubao.App.Fsm.{FsmPc}
use esp32s3_box3_doubao.App.System.Microphone.{MicOk, SameMic}

same : (app : App) → SameMic app app
same app = record { app_state = refl; streaming = refl; wakenet = refl }

same_trans : (a b c : App) → SameMic a b → SameMic b c → SameMic a c
same_trans a b c p q = record {
  app_state = q.app_state ∙ p.app_state;
  streaming = q.streaming ∙ p.streaming;
  wakenet = q.wakenet ∙ p.wakenet;
}

append_tts-SameMic : (text : List ℕ) (app : App) → SameMic app (append_tts text app)
unfolding append_tts set_tts_label
append_tts-SameMic text app = ground arith

note_reply_id-SameMic : (reply_id : List ℕ) (app : App) → SameMic app (note_reply_id reply_id app)
unfolding note_reply_id
note_reply_id-SameMic reply_id app = ground arith

with_text-SameMic :
    (o : Option (List ℕ)) (f : List ℕ → App → App) (app : App)
    → ((t : List ℕ) (a : App) → SameMic a (f t a))
    → SameMic app (with_text o f app)
with_text-SameMic none f app h = same app
with_text-SameMic (some t) f app h = h t app

with_item-SameMic :
    (o : Option ℕ) (f : ℕ → App → App) (app : App)
    → ((i : ℕ) (a : App) → SameMic a (f i a))
    → SameMic app (with_item o f app)
with_item-SameMic none f app h = same app
with_item-SameMic (some i) f app h = h i app

set_asr_text-SameMic : (text : List ℕ) (app : App) → SameMic app (set_asr_text text app)
unfolding set_asr_text
set_asr_text-SameMic text app = record { app_state = refl; streaming = refl; wakenet = refl }

play_all-SameMic :
    (E : Env) (app : App) (frames : List (List ℕ)) → SameMic app (play_all E app frames)
unfolding play_all on_decoded_pcm
play_all-SameMic E app [] = same app
play_all-SameMic E app (pcm ∷ rest) =
    same_trans app (on_decoded_pcm E app pcm) _ (ground arith)
      (play_all-SameMic E (on_decoded_pcm E app pcm) rest)

module _ (E : Env) (resp : Response) where
  pub tts_text_event-SameMic : (app : App) → SameMic app (tts_text_event E resp app)
  unfolding tts_text_event
  tts_text_event-SameMic app =
      with_item-SameMic (json_payload E.json resp) _ app
        λ root a. with_text-SameMic (string_field E.json root "text") _ a append_tts-SameMic

  pub asr_event-SameMic : (app : App) → SameMic app (asr_event E resp app)
  unfolding asr_event
  asr_event-SameMic app = with_item-SameMic (json_payload E.json resp) _ app λ root a.
      with_item-SameMic (first_result E.json root) _ a λ result0 b.
        elim (Bool-cases (is_final E.json result0)) [
          | inl e ↦
              rw e (with_text-SameMic (string_field E.json result0 "text") _ b set_asr_text-SameMic)
          | inr e ↦ rw e (same b)
        ]

  pub reply_event-SameMic : (app : App) → SameMic app (reply_event E resp app)
  unfolding reply_event
  reply_event-SameMic app = with_item-SameMic (json_payload E.json resp) _ app λ root a.
      same_trans a (with_text (string_field E.json root "reply_id") note_reply_id a) _
        (with_text-SameMic (string_field E.json root "reply_id") _ a note_reply_id-SameMic)
        (with_text-SameMic (string_field E.json root "content") _ _ append_tts-SameMic)

  pub receive_ack-SameMic : (o : Option (List ℕ)) (app : App) → SameMic app (receive_ack E app o)
  unfolding receive_ack receive_audio
  receive_ack-SameMic none app = same app
  receive_ack-SameMic (some bytes) app =
      same_trans app (record app { opus = (opus_proc_decode_ogg E.codec app.opus bytes).0 }) _
        (record { app_state = refl; streaming = refl; wakenet = refl }) (play_all-SameMic E _ _)

pub kept :
    (fsm : FsmPc) (rx : WsPc) (app app' : App)
    → SameMic app app'
    → MicOk fsm rx app
    → MicOk fsm rx app'
kept fsm rx app app' k v = record {
  when_speaking =
      λ e. let p = v.when_speaking (sym k.app_state ∙ e) in (k.streaming ∙ p.0, k.wakenet ∙ p.1);
  when_listening = λ e a r.
      let p = v.when_listening (sym k.app_state ∙ e) a r in (k.streaming ∙ p.0, k.wakenet ∙ p.1);
}

-- In a state that is neither of the two nothing is asked.
pub resting :
    (fsm : FsmPc) (rx : WsPc) (app : App) → app.app_state ≡ connected_idle → MicOk fsm rx app
resting fsm rx app e = record {
  when_speaking = λ s. absurd cc;
  when_listening = λ l a r. absurd cc;
}

module _ (E : Env) (resp : Response) (fsm : FsmPc) where
  pub tts_ended_event-MicOk :
      (app : App)
      → MicOk fsm ready app
      → MicOk fsm (tts_ended_event E resp app).1 (tts_ended_event E resp app).0
  unfolding tts_ended_event clear_playback clear_capture clear_ref reset_ogg start_listening
      finish_session log_sent set_streaming enable_wakenet disable_wakenet set_app_state set_hint
  tts_ended_event-MicOk app v = elim (Bool-cases (not app.say_hello_done)) [
    | inl greeting ↦
        rw greeting (record { when_speaking = v.when_speaking; when_listening = v.when_listening })
    | inr talking ↦ elim (Bool-cases (exit_intent E.json resp)) [
      | inl leave ↦
          rw (talking, leave)
            (record { when_speaking = λ e. (refl, refl); when_listening = λ e a r. absurd cc })
      | inr stay ↦
          rw (talking, stay)
            (record { when_speaking = λ e. absurd cc; when_listening = λ e a r. (refl, refl) })
    ]
  ]

  pub clear_cache_event-MicOk : (app : App) → MicOk fsm ready (clear_cache_event E app)
  unfolding clear_cache_event clear_playback clear_capture clear_ref reset_ogg start_listening
      set_streaming disable_wakenet set_app_state set_hint
  clear_cache_event-MicOk app = record {
    when_speaking = λ e. absurd cc;
    when_listening = λ e a r. (refl, refl);
  }

  pub query_end_event-MicOk : (app : App) → MicOk fsm ready (query_end_event app)
  unfolding query_end_event set_streaming enable_wakenet clear_capture set_app_state set_hint
  query_end_event-MicOk app = record {
    when_speaking = λ e. (refl, refl);
    when_listening = λ e a r. absurd cc;
  }

  pub server_error-MicOk :
      (app : App)
      → MicOk fsm ready app
      → MicOk fsm (server_error E resp app).1 (server_error E resp app).0
  unfolding server_error clear_playback clear_capture clear_ref reset_ogg set_streaming
      finish_session log_sent
  server_error-MicOk app v =
      elim (Bool-cases (resp.error_code == 55000001 || resp.error_code == 52000042)) [
        | inl mild ↦ rw mild (record {
          when_speaking = λ e. (refl, (v.when_speaking e).1);
          when_listening = λ e a r. absurd cc;
        })
        | inr grave ↦
            rw grave (record { when_speaking = v.when_speaking; when_listening = v.when_listening })
      ]

  pub session_finish_event_state :
      (app : App) → (session_finish_event app).app_state ≡ connected_idle
  unfolding session_finish_event rest_screen set_streaming enable_wakenet set_app_state set_asr_text
      set_tts_label set_hint
  session_finish_event_state app = refl
