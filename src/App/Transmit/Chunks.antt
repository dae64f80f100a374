-- ===== src/App/Transmit/Chunks.antt =====
-- What is sent of the captured audio.
use esp32s3_box3_doubao.Common.{
  ℕ, zero, suc, ap, ◌∙◌, ◌+◌, ◌-◌, ◌≤◌, ◌≡◌, refl, sym, Bool, true, false, some, List, [], ◌∷◌,
  ◌++◌, length, length-take, length-append, take, take_all, ltb, leb, arith, if◌then◌else◌,
  Bool-cases, inl, inr,
}
use esp32s3_box3_doubao.WsClient.Lifecycle.{doubao_ws_is_connected}
use esp32s3_box3_doubao.WsClient.Requests.{doubao_ws_send_audio}
use esp32s3_box3_doubao.App.State.{App, Env, listening}
use esp32s3_box3_doubao.App.Receive.Events.{log_sent}
use esp32s3_box3_doubao.App.Transmit.{chunk_bytes, accumulate, send_full, with_received, tx_round}

-- Taking past the end of the first list.
take-append_over :
    (n : ℕ) (xs ys : List ℕ) → length xs ≤ n → take n (xs ++ ys) ≡ xs ++ take (n - length xs) ys
take-append_over n [] ys h = let same : n - 0 ≡ n = omega arith in ap (λ k. take k ys) (sym same)
take-append_over zero (x ∷ xs) ys h = absurd (omega arith)
take-append_over (suc n) (x ∷ xs) ys h =
    let same : suc n - suc (length xs) ≡ n - length xs = omega arith in
    ap (λ zs. x ∷ zs) (take-append_over n xs ys (omega arith))
    ∙ ap (λ k. x ∷ (xs ++ take k ys)) (sym same)

-- Copying what there is room for is taking from the two together.
copied :
    (n : ℕ) (xs ys : List ℕ)
    → length xs ≤ n
    → xs ++ take (if ltb n (length xs + length ys) then n - length xs else length ys) ys
      ≡ take n (xs ++ ys)
copied n xs ys h = elim (Bool-cases (ltb n (length xs + length ys))) [
  | inl over ↦ rw over (sym (take-append_over n xs ys h))
  | inr fits ↦
      let short : length (xs ++ ys) ≤ n = ground (arith, length-append xs ys) in
      rw fits (
        ap (λ zs. xs ++ zs) (take_all (length ys) ys (omega arith))
        ∙ sym (take_all n (xs ++ ys) short))
]

accumulate_lem :
    (pcm_chunk item : List ℕ)
    → length pcm_chunk ≤ chunk_bytes
    → accumulate pcm_chunk item ≡ take chunk_bytes (pcm_chunk ++ item)
unfolding accumulate
accumulate_lem pcm_chunk item h = copied chunk_bytes pcm_chunk item h

-- What a round makes of the bytes that were kept and those that came.
abbrev pub cut : Env → Bool → App → List ℕ → App × List ℕ
cut E still app bytes =
    if leb chunk_bytes (length bytes)
    then (
      if still
          then log_sent app
              (doubao_ws_send_audio E.platform E.send_bin app.ws (take chunk_bytes bytes))
          else app,
      [],
    )
    else (app, bytes)

take_full :
    (n : ℕ) (bytes : List ℕ) → leb n (length bytes) ≡ true → leb n (length (take n bytes)) ≡ true
take_full n bytes h = ground (arith, length-take {0} n bytes)

short_le : (n : ℕ) (bytes : List ℕ) → leb n (length bytes) ≡ false → length bytes ≤ n
short_le n bytes h = ground arith

send_full-cut :
    (E : Env) (still : Bool) (app : App) (bytes : List ℕ)
    → send_full E still app (take chunk_bytes bytes) ≡ cut E still app bytes
unfolding send_full
send_full-cut E still app bytes = elim (Bool-cases (leb chunk_bytes (length bytes))) [
  | inl full ↦
      let still_full : leb chunk_bytes (length (take chunk_bytes bytes)) ≡ true =
        take_full chunk_bytes bytes full in
      rw (still_full, full) refl
  | inr short ↦
      let all : take chunk_bytes bytes ≡ bytes =
        take_all chunk_bytes bytes (short_le chunk_bytes bytes short) in
      rw (all, short) refl
]

received :
    (E : Env) (still : Bool) (app : App) (item pcm_chunk : List ℕ)
    → app.app_state ≡ listening
    → app.ws.connected ≡ true
    → tx_round E (record { item = some item; still_listening = still }) app pcm_chunk
      ≡ send_full E still app (accumulate pcm_chunk item)
unfolding tx_round with_received doubao_ws_is_connected
received E still app item pcm_chunk here up = rw (here, up) refl

-- While it listens on an open connection, an item is put behind the bytes that were kept. Less than
-- 640 bytes together are kept; of more, the first 640 are handed to `doubao_ws_send_audio`, if it
-- still listens, and the rest is neither sent nor kept.
pub tx_round_cuts :
    (E : Env) (still : Bool) (app : App) (item pcm_chunk : List ℕ)
    → app.app_state ≡ listening
    → app.ws.connected ≡ true
    → length pcm_chunk ≤ chunk_bytes
    → tx_round E (record { item = some item; still_listening = still }) app pcm_chunk
      ≡ cut E still app (pcm_chunk ++ item)
tx_round_cuts E still app item pcm_chunk here up kept =
    received E still app item pcm_chunk here up
    ∙ ap (λ bytes. send_full E still app bytes) (accumulate_lem pcm_chunk item kept)
    ∙ send_full-cut E still app (pcm_chunk ++ item)
