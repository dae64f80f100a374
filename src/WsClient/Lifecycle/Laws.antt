-- ===== src/WsClient/Lifecycle/Laws.antt =====
-- What the client owns between its calls.
use esp32s3_box3_doubao.Common.{
  ℕ, ◌≡◌, Bool, false, not, ◌&&◌, ◌||◌, if◌then◌else◌, List, arith, Exec, ok, fault, ◌>>=◌,
}
use esp32s3_box3_doubao.WsClient.State.{WsConfig}
use esp32s3_box3_doubao.WsClient.Lifecycle.{
  Blocks, contains, acquire, release, InitEnv, ConnectEnv, doubao_ws_init, doubao_ws_connect,
  doubao_ws_destroy,
}

-- A connection attempt and its end, as the main task makes them: a failed initialisation is followed
-- by the destruction of the client as well.
abbrev pub attempt : InitEnv → ConnectEnv → WsConfig → Blocks → Exec (List ℕ)
attempt ienv cenv config h = do
  (made, client, h1) ← doubao_ws_init ienv config h
  if made
      then (do
        (connected, client', h2) ← doubao_ws_connect cenv client h1
        (closed, h3) ← doubao_ws_destroy client' h2
        ok h3.live)
      else (do (closed, h2) ← doubao_ws_destroy client h1; ok h2.live)

-- The buffer is there, but the event group cannot be made.
abbrev group_missing : InitEnv → Bool
group_missing ienv = (ienv.spiram_ok || ienv.malloc_ok) && not ienv.event_group_ok

-- With a heap that hands out what is not in use: a client that cannot be initialised for want of the
-- buffer, or that connects or fails to connect at any of the calls on the way, is destroyed without a
-- fault and has given back all it took; but when the event group cannot be made, the failed
-- initialisation leaves the address of the freed buffer in the client, and the destruction that
-- follows frees the buffer twice.
pub attempt_balanced :
    (ienv : InitEnv) (cenv : ConnectEnv) (config : WsConfig) (h : Blocks)
    → contains h.live h.next ≡ false
    → attempt ienv cenv config h ≡ (if group_missing ienv then fault else ok h.live)
unfolding doubao_ws_init doubao_ws_connect doubao_ws_destroy acquire release ◌>>=◌
attempt_balanced ienv cenv config h fresh = ground arith
