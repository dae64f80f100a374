-- ===== src/Desktop/Session/Heard.antt =====
-- What the messages say, and that the handler listens to it.
use esp32s3_box3_doubao.Common.{
  ℕ, ◌<◌, ◌≡◌, refl, ap, ◌∙◌, Bool, true, false, ◌||◌, Option, none, some, List, [], ◌∷◌, ◌++◌,
  length, Exec, ok, fail, fault, ◌>>=◌, ◌==◌, if◌then◌else◌, >>=_same,
}
use esp32s3_box3_doubao.Protocol.Constants.{
  msg_server_full_response, msg_server_ack, msg_server_error, event_tts_ended, event_clear_cache,
  event_user_query_end, event_session_finish_1, event_session_finish_2,
}
use esp32s3_box3_doubao.Protocol.Response.{Response}
use esp32s3_box3_doubao.Opus.{Codec, Opus, opus_proc_decode_ogg, opus_proc_reset_ogg}
use esp32s3_box3_doubao.Desktop.Host.{Host}
use esp32s3_box3_doubao.Desktop.Response.{parse_response}
use esp32s3_box3_doubao.Desktop.Audio.Decode.Saving.{small_cap}
use esp32s3_box3_doubao.Desktop.Session.{
  Session, Action, clear_queue, signal_hello, enqueue_all, receive_audio, clear_cache, tts_ended,
  on_event, receive_ack, on_response, after_parse, on_ws_receive,
}

-- What the server says in a message, as far as a session listens.
pub data Said : Type 0 where
  speech : List ℕ → Said
  barge_in query_end reply_end finished broken nothing : Said

abbrev said_event : ℕ → Said
said_event event =
    if event == event_clear_cache
    then barge_in
    else if event == event_user_query_end
    then query_end
    else if event == event_tts_ended
    then reply_end
    else if event == event_session_finish_1 || event == event_session_finish_2
    then finished
    else nothing

abbrev said_audio : Option (List ℕ) → Said
said_audio none = nothing
said_audio (some bytes) = speech bytes

abbrev pub said_by : Response → Said
said_by resp =
    if resp.message_type == msg_server_ack
    then said_audio (if resp.is_binary then resp.payload_data else none)
    else if resp.message_type == msg_server_full_response
    then (if resp.has_event then said_event resp.event else nothing)
    else if resp.message_type == msg_server_error
    then broken
    else nothing

-- A message that cannot be parsed says nothing.
abbrev pub IsHeard : Exec Response → Said → Type 0
IsHeard (ok resp) word = said_by resp ≡ word
IsHeard fail word = word ≡ nothing
IsHeard fault word = ⊥

abbrev pub is_reply_end : Said → Bool
is_reply_end reply_end = true
is_reply_end _ = false

abbrev pub is_finished : Said → Bool
is_finished finished = true
is_finished _ = false

abbrev pub is_broken : Said → Bool
is_broken broken = true
is_broken _ = false

-- Whether the user is speaking, by the last word on it.
abbrev pub querying : List Said → Bool → Bool
querying [] before = before
querying (barge_in ∷ said) before = querying said true
querying (query_end ∷ said) before = querying said false
querying (_ ∷ said) before = querying said before

abbrev pub ever : (Said → Bool) → List Said → Bool
ever test [] = false
ever test (word ∷ said) = test word || ever test said

-- A speech is less than a block can hold.
abbrev pub IsShort : Said → Type 0
IsShort (speech bytes) = length bytes < small_cap
IsShort _ = Unit

abbrev pub AllShort : List Said → Type 0
AllShort [] = Unit
AllShort (word ∷ said) = IsShort word × AllShort said

-- The calls on the play queue and of the signal: what the device's decoder makes of the speech, and
-- the greeting's end only once.
abbrev pub answers : Codec → Opus → Bool → List Said → List Action
answers C proc done [] = []
answers C proc done (speech bytes ∷ said) =
    let (proc', out) = opus_proc_decode_ogg C proc bytes in
    enqueue_all out ++ answers C proc' done said
answers C proc done (barge_in ∷ said) =
    clear_queue ∷ answers C (opus_proc_reset_ogg C proc) done said
answers C proc true (reply_end ∷ said) = answers C proc true said
answers C proc false (reply_end ∷ said) = signal_hello ∷ answers C proc true said
answers C proc done (_ ∷ said) = answers C proc done said

module _ (H : Host) (C : Codec) where
  unfoldable pub on_said : Said → Session → Exec (Session × List Action)
  on_said (speech bytes) s = receive_audio H C bytes s
  on_said barge_in s = ok (clear_cache H C s)
  on_said query_end s = ok (record s { user_querying = false }, [])
  on_said reply_end s = ok (tts_ended H C s)
  on_said finished s = ok (record s { session_finished = true }, [])
  on_said broken s = ok (record s { running = false }, [])
  on_said nothing s = ok (s, [])

  said_if :
      (b : Bool) (x y : Said) (s : Session) {m m' : Exec (Session × List Action)}
      → m ≡ on_said x s
      → m' ≡ on_said y s
      → (if b then m else m') ≡ on_said (if b then x else y) s
  said_if true x y s p q = p
  said_if false x y s p q = q

  said_if_ok :
      (b : Bool) (x y : Said) (s : Session) (m m' : Session × List Action)
      → ok m ≡ on_said x s
      → ok m' ≡ on_said y s
      → ok (if b then m else m') ≡ on_said (if b then x else y) s
  said_if_ok true x y s m m' p q = p
  said_if_ok false x y s m m' p q = q

  on_event_lem :
      (event : ℕ) (s : Session) → ok (on_event H C event s) ≡ on_said (said_event event) s
  unfolding on_event on_said
  on_event_lem event s = said_if_ok (event == event_clear_cache) _ _ s _ _ refl (
      said_if_ok (event == event_user_query_end) _ _ s _ _ refl (
        said_if_ok (event == event_tts_ended) _ _ s _ _ refl (
          said_if_ok (event == event_session_finish_1 || event == event_session_finish_2) _ _ s _ _
            refl refl)))

  receive_ack_lem :
      (payload : Option (List ℕ)) (s : Session)
      → receive_ack H C payload s ≡ on_said (said_audio payload) s
  unfolding receive_ack on_said
  receive_ack_lem none s = refl
  receive_ack_lem (some bytes) s = refl

  on_response_lem :
      (resp : Response) (s : Session) → on_response H C resp s ≡ on_said (said_by resp) s
  unfolding on_response on_said
  on_response_lem resp s =
      said_if (resp.message_type == msg_server_ack) _ _ s (receive_ack_lem _ s) (
        said_if (resp.message_type == msg_server_full_response) _ _ s
          (said_if_ok resp.has_event _ _ s _ _ (on_event_lem resp.event s) refl)
          (said_if (resp.message_type == msg_server_error) _ _ s refl refl))

  after_parse_lem :
      (parsed : Exec Response) (word : Said) (s : Session)
      → IsHeard parsed word
      → after_parse H C parsed s ≡ on_said word s
  unfolding after_parse on_said
  after_parse_lem (ok resp) word s heard = on_response_lem resp s ∙ ap (λ w. on_said w s) heard
  after_parse_lem fail word s heard = rw heard refl
  after_parse_lem fault word s heard = absurd heard

  -- The messages of a connection, one after the other.
  unfoldable pub receive_all : ℕ → List (List ℕ) → Session → Exec (Session × List Action)
  receive_all fuel [] s = ok (s, [])
  receive_all fuel (bytes ∷ messages) s = do
    (s', acts) ← on_ws_receive H C fuel bytes s
    (end, rest) ← receive_all fuel messages s'
    ok (end, acts ++ rest)

  abbrev pub AreHeard : ℕ → List (List ℕ) → List Said → Type 0
  AreHeard fuel [] [] = Unit
  AreHeard fuel (bytes ∷ messages) (word ∷ said) =
      IsHeard (parse_response H fuel bytes) word × AreHeard fuel messages said
  AreHeard fuel [] (_ ∷ _) = ⊥
  AreHeard fuel (_ ∷ _) [] = ⊥

  unfoldable pub run_said : List Said → Session → Exec (Session × List Action)
  run_said [] s = ok (s, [])
  run_said (word ∷ said) s = do
    (s', acts) ← on_said word s
    (end, rest) ← run_said said s'
    ok (end, acts ++ rest)

  pub receive_all_lem :
      (fuel : ℕ) (messages : List (List ℕ)) (said : List Said) (s : Session)
      → AreHeard fuel messages said
      → receive_all fuel messages s ≡ run_said said s
  unfolding receive_all run_said on_ws_receive
  receive_all_lem fuel [] [] s heard = refl
  receive_all_lem fuel (bytes ∷ messages) (word ∷ said) s (heard, more) =
      >>=_same (on_said word s) (after_parse_lem (parse_response H fuel bytes) word s heard)
        λ r. >>=_same (run_said said r.0) (receive_all_lem fuel messages said r.0 more) λ _. refl
  receive_all_lem fuel [] (_ ∷ _) s heard = absurd heard
  receive_all_lem fuel (_ ∷ _) [] s heard = absurd heard
