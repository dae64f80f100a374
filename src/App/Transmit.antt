-- ===== src/App/Transmit.antt =====
-- `ws_tx_task` of main/app_main.c: captured audio is sent in chunks of 320 samples.
pub mod Chunks
pub mod Bounds
use esp32s3_box3_doubao.Common.{
  ℕ, ◌+◌, ◌-◌, ◌*◌, Bool, true, false, not, Option, none, some, List, [], ◌++◌, length, take, ltb,
  leb, if◌then◌else◌,
}
use esp32s3_box3_doubao.WsClient.Lifecycle.{doubao_ws_is_connected}
use esp32s3_box3_doubao.WsClient.Requests.{doubao_ws_send_audio}
use esp32s3_box3_doubao.App.State.{AppState, listening, App, Env}
use esp32s3_box3_doubao.App.Receive.Events.{log_sent}

abbrev pub chunk_bytes : ℕ
chunk_bytes = 320 * 2

abbrev pub is_listening : AppState → Bool
is_listening listening = true
is_listening _ = false

-- What one round meets: what `xRingbufferReceive` takes out of the capture buffer within 60 ms, and
-- whether the state is still LISTENING when the chunk is full.
pub record TxInput : Type 0 where
  pub item : Option (List ℕ)
  pub still_listening : Bool

-- As much of an item as the chunk has room for is copied; the item is then given back.
unfoldable pub accumulate : List ℕ → List ℕ → List ℕ
accumulate pcm_chunk item =
    let to_copy =
      if ltb chunk_bytes (length pcm_chunk + length item)
      then chunk_bytes - length pcm_chunk
      else length item in
    pcm_chunk ++ take to_copy item

unfoldable pub send_full : Env → Bool → App → List ℕ → App × List ℕ
send_full E still_listening app pcm_chunk =
    if leb chunk_bytes (length pcm_chunk)
    then (
      if still_listening
          then log_sent app (doubao_ws_send_audio E.platform E.send_bin app.ws pcm_chunk)
          else app,
      [],
    )
    else (app, pcm_chunk)

unfoldable pub with_received : Env → TxInput → Option (List ℕ) → App → List ℕ → App × List ℕ
with_received E input none app pcm_chunk = (app, pcm_chunk)
with_received E input (some item) app pcm_chunk =
    send_full E input.still_listening app (accumulate pcm_chunk item)

-- One round of the loop, with the capture buffer in place; the list is the accumulated bytes.
unfoldable pub tx_round : Env → TxInput → App → List ℕ → App × List ℕ
tx_round E input app pcm_chunk =
    if not (is_listening app.app_state)
    then (app, [])
    else if not (doubao_ws_is_connected app.ws)
    then (app, pcm_chunk)
    else with_received E input input.item app pcm_chunk
