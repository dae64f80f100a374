-- ===== src/App/Transmit/Bounds.antt =====
-- The sizes of what is accumulated and sent.
use esp32s3_box3_doubao.Common.{ℕ, ◌<◌, ◌≡◌, ◌⊎◌, List, length}
use esp32s3_box3_doubao.WsClient.Requests.{doubao_ws_send_audio}
use esp32s3_box3_doubao.App.State.{App, Env}
use esp32s3_box3_doubao.App.Receive.Events.{log_sent}
use esp32s3_box3_doubao.App.Transmit.{chunk_bytes}

-- The chunk is not full, and either nothing was sent or one chunk of exactly 640 bytes.
pub record IsBounded (E : Env) (app : App) (r : App × List ℕ) : Type 0 where
  pub not_full : length r.1 < chunk_bytes
  pub sends :
      (r.0 ≡ app)
      ⊎ ((chunk : List ℕ) × (length chunk ≡ chunk_bytes)
          × (r.0 ≡ log_sent app (doubao_ws_send_audio E.platform E.send_bin app.ws chunk)))
