-- ===== src/Desktop/Audio/Decode/Agreement.antt =====
-- The desktop's decoder and the device's play the same samples.
use esp32s3_box3_doubao.Common.{
  ℕ, ◌<◌, ◌≡◌, refl, sym, ap, ◌∙◌, Bool, true, false, not, ◌||◌, List, [], ◌∷◌, ◌++◌, length, arith,
  Exec, ok, ◌>>=◌, ◌==◌, Bool-cases, inl, inr,
}
use esp32s3_box3_doubao.Desktop.Host.{Host}
use esp32s3_box3_doubao.Opus.{Page, Codec, Opus, opus_proc_decode_ogg, opus_proc_reset_ogg}
use esp32s3_box3_doubao.Desktop.Audio.Decode.{
  Manager, stream_init, choose_stream, count_header, take_packet, take_packets, take_page,
  take_pages, feed, audio_decode_ogg_opus, audio_reset_ogg_state,
}
use esp32s3_box3_doubao.Desktop.Audio.Decode.Device.{
  device_of, on_device, on_device_if, take_pages_lem,
}
use esp32s3_box3_doubao.Desktop.Audio.Decode.Saving.{small_cap, IsSaving, ogg_buffer_append-Saves}

feed_lem :
    (C : Codec) (am : Manager) (bytes : List ℕ)
    → am.opus_decoder ≡ true
    → 0 < length bytes
    → opus_proc_decode_ogg C (device_of am) bytes ≡ on_device (feed C am bytes)
unfolding opus_proc_decode_ogg feed
feed_lem C am bytes ready some_bytes =
    let same : (length bytes == 0 || not am.opus_decoder || not (C.sync_buffer_ok (length bytes)))
        ≡ not (C.sync_buffer_ok (length bytes)) =
      ground (arith, ready) in
    let (pages, left) = C.pageout (am.ogg_sync ++ bytes) in
    let read : Manager = record am { ogg_sync = left } in
    rw same (
      on_device_if (not (C.sync_buffer_ok (length bytes))) (am, []) (take_pages C read pages) refl
        (take_pages_lem C read pages))

-- The server's audio comes in, or the playback is cut off.
pub data Input : Type 0 where
  audio : List ℕ → Input
  reset : Input

unfoldable pub run_desktop : Codec → Host → Manager → List Input → Exec (Manager × List (List ℕ))
run_desktop C H am [] = ok (am, [])
run_desktop C H am (audio bytes ∷ inputs) = do
  (am', out) ← audio_decode_ogg_opus C H am bytes
  (end, rest) ← run_desktop C H am' inputs
  ok (end, out ++ rest)
run_desktop C H am (reset ∷ inputs) = run_desktop C H (audio_reset_ogg_state C am) inputs

unfoldable pub run_device : Codec → Opus → List Input → Opus × List (List ℕ)
run_device C proc [] = (proc, [])
run_device C proc (audio bytes ∷ inputs) =
    let (proc', out) = opus_proc_decode_ogg C proc bytes in
    let (end, rest) = run_device C proc' inputs in (end, out ++ rest)
run_device C proc (reset ∷ inputs) = run_device C (opus_proc_reset_ogg C proc) inputs

abbrev pub AreShort : List Input → Type 0
AreShort [] = Unit
AreShort (audio bytes ∷ inputs) = (length bytes < small_cap) × AreShort inputs
AreShort (reset ∷ inputs) = AreShort inputs

abbrev pub Plays : Exec (Manager × List (List ℕ)) → Opus × List (List ℕ) → Type 0
Plays r device =
    (end : Manager) × (out : List (List ℕ)) × (r ≡ ok (end, out)) × (on_device (end, out) ≡ device)

-- What decoding never changes.
abbrev saved_part : Manager → Bool × Bool × List ℕ × ℕ
saved_part am = (am.opus_decoder, am.ogg_buffer, am.ogg_data, am.ogg_buffer_cap)

choose_stream_keeps :
    (am : Manager) (page : Page) → saved_part (choose_stream am page) ≡ saved_part am
unfolding choose_stream stream_init
choose_stream_keeps am page = ground arith

module _ (C : Codec) where
  take_packet_keeps :
      (am : Manager) (packet : List ℕ) → saved_part (take_packet C am packet).0 ≡ saved_part am
  unfolding take_packet count_header
  take_packet_keeps am packet = ground arith

  take_packets_keeps :
      (am : Manager) (packets : List (List ℕ))
      → saved_part (take_packets C am packets).0 ≡ saved_part am
  unfolding take_packets
  take_packets_keeps am [] = refl
  take_packets_keeps am (packet ∷ packets) =
      take_packets_keeps (take_packet C am packet).0 packets ∙ take_packet_keeps am packet

  take_pages_keeps :
      (am : Manager) (pages : List Page) → saved_part (take_pages C am pages).0 ≡ saved_part am
  unfolding take_pages take_page
  take_pages_keeps am [] = refl
  take_pages_keeps am (page ∷ pages) =
      take_pages_keeps (take_page C am page).0 pages
      ∙ take_packets_keeps _ _
      ∙ choose_stream_keeps am page

  feed_keeps : (am : Manager) (bytes : List ℕ) → saved_part (feed C am bytes).0 ≡ saved_part am
  unfolding feed
  feed_keeps am bytes = elim (Bool-cases (not (C.sync_buffer_ok (length bytes)))) [
    | inl short ↦ rw short refl
    | inr room ↦ rw room (take_pages_keeps _ _)
  ]

IsSaving-keeps : (am am' : Manager) → saved_part am' ≡ saved_part am → IsSaving am → IsSaving am'
IsSaving-keeps am am' e v =
    let buffer : am'.ogg_buffer ≡ am.ogg_buffer = ap (λ p. p.1) e in
    let content : am'.ogg_data ≡ am.ogg_data = ap (λ p. p.2) e in
    let cap : am'.ogg_buffer_cap ≡ am.ogg_buffer_cap = ap (λ p. p.3) e in
    record {
      small = omega (arith, v.small, cap);
      fits = omega (arith, v.fits, cap, ap length content);
      there = λ some_room. buffer ∙ v.there (omega (arith, cap));
    }

module _ (C : Codec) (H : Host) (am : Manager) (bytes : List ℕ) where
  -- One call, on both sides.
  abbrev pub Decodes : Type 0
  Decodes =
      (am' : Manager) × (out : List (List ℕ)) × (audio_decode_ogg_opus C H am bytes ≡ ok (am', out))
      × (on_device (am', out) ≡ opus_proc_decode_ogg C (device_of am) bytes)
      × (am'.opus_decoder ≡ true)
      × IsSaving am'

  decode_nothing : (length bytes == 0) ≡ true → am.opus_decoder ≡ true → IsSaving am → Decodes
  unfolding audio_decode_ogg_opus opus_proc_decode_ogg
  decode_nothing nothing ready v = (am, [], rw nothing refl, rw nothing refl, ready, v)

  decode_some :
      ((n : ℕ) → H.realloc n ≡ true → n < small_cap)
      → (length bytes == 0) ≡ false
      → length bytes < small_cap
      → am.opus_decoder ≡ true
      → IsSaving am
      → Decodes
  unfolding audio_decode_ogg_opus ◌>>=◌
  decode_some limit something few ready v =
      let some_bytes : 0 < length bytes = ground arith in
      let (saved, e, same, v') = ogg_buffer_append-Saves H am bytes v limit some_bytes few in
      let ready' : saved.opus_decoder ≡ true = ap (λ proc. proc.has_decoder) same ∙ ready in
      let kept : saved_part (feed C saved bytes).0 ≡ saved_part saved = feed_keeps C saved bytes in
      (
        (feed C saved bytes).0,
        (feed C saved bytes).1,
        rw (something, e) refl,
        sym (feed_lem C saved bytes ready' some_bytes)
            ∙ ap (λ proc. opus_proc_decode_ogg C proc bytes) same,
        ap (λ p. p.0) kept ∙ ready',
        IsSaving-keeps saved (feed C saved bytes).0 kept v',
      )

pub decode_lem :
    (C : Codec) (H : Host) (am : Manager) (bytes : List ℕ)
    → ((n : ℕ) → H.realloc n ≡ true → n < small_cap)
    → length bytes < small_cap
    → am.opus_decoder ≡ true
    → IsSaving am
    → Decodes C H am bytes
decode_lem C H am bytes limit few ready v = elim (Bool-cases (length bytes == 0)) [
  | inl nothing ↦ decode_nothing C H am bytes nothing ready v
  | inr something ↦ decode_some C H am bytes limit something few ready v
]

-- Whatever the server sends, and wherever the playback is cut off in between, the desktop's decoder
-- hands the same samples to its play queue as the device's hands to its callback, and stays in the
-- same state; saving the raw audio never writes outside its buffer, with memory or without, provided
-- that no block has 2 ^ 60 bytes or more.
pub run_desktop-Plays :
    (C : Codec) (H : Host) (am : Manager) (inputs : List Input)
    → ((n : ℕ) → H.realloc n ≡ true → n < small_cap)
    → am.opus_decoder ≡ true
    → IsSaving am
    → AreShort inputs
    → Plays (run_desktop C H am inputs) (run_device C (device_of am) inputs)
unfolding run_desktop run_device audio_reset_ogg_state opus_proc_reset_ogg ◌>>=◌
run_desktop-Plays C H am [] limit ready v short = (am, [], refl, refl)
run_desktop-Plays C H am (reset ∷ inputs) limit ready v short =
    run_desktop-Plays C H (audio_reset_ogg_state C am) inputs limit ready
      (record { small = v.small; fits = v.fits; there = v.there }) short
run_desktop-Plays C H am (audio bytes ∷ inputs) limit ready v (few, short) =
    let (am', out, e, same, ready', v') = decode_lem C H am bytes limit few ready v in
    let (end, rest, e', same') = run_desktop-Plays C H am' inputs limit ready' v' short in
    (end, out ++ rest, rw (e, e') refl, rw (← same, ← same') refl)
