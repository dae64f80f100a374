-- ===== src/Desktop/Lifecycle.antt =====
-- What the desktop client owns: `client_init`, `client_connect` and `client_destroy` of
-- doubao_c_version/client.c, over the set of blocks in use.
pub mod Laws
use esp32s3_box3_doubao.Common.{
  ℕ, zero, suc, Bool, true, false, not, ◌&&◌, Option, none, some, List, [], ◌∷◌, Exec, ok, ◌>>=◌,
  if◌then◌else◌,
}
use esp32s3_box3_doubao.WsClient.Lifecycle.{Blocks, acquire, release}

-- The context of libwebsockets, the handle of the connection, which belongs to the context, the
-- receive buffer, and the copies in the send queue from its head to its tail.
pub record Owned : Type 0 where
  pub context : Option ℕ
  pub wsi : Bool
  pub recv_buf : Option ℕ
  pub queued : List ℕ
  pub connected : Bool
  pub running : Bool

-- Everything that `memset` clears.
abbrev pub nothing : Owned
nothing = record {
  context = none;
  wsi = false;
  recv_buf = none;
  queued = [];
  connected = false;
  running = false;
}

-- `env_ok`: the two environment variables are there. The result of `malloc` is not looked at.
unfoldable pub client_init : Bool → Bool → Blocks → Bool × Owned × Blocks
client_init env_ok malloc_ok h =
    let (buf, h') = acquire malloc_ok h in
    if not env_ok
    then (false, nothing, h)
    else (true, record nothing { recv_buf = buf; running = true }, h')

-- What the callbacks of one `lws_service` leave in the two flags, by the rounds that are left.
abbrev pub Service : Type 0
Service = ℕ → Bool × Bool

unfoldable pub service_until_connected : Service → ℕ → Owned → Owned
service_until_connected service zero o = o
service_until_connected service (suc left) o =
    let (connected', running') = service left in
    let rest =
      service_until_connected service left
        (record o { connected = connected'; running = running' }) in
    if not o.connected && o.running then rest else o

-- 10000 ms in steps of 50 ms.
abbrev pub service_rounds : ℕ
service_rounds = 200

-- When there is no connection to be had, the context is destroyed, and its field keeps the address.
unfoldable pub client_connect :
    Bool → Bool → Service → Owned → Blocks → Exec (Bool × Owned × Blocks)
client_connect context_ok wsi_ok service o h =
    let (context', h') = acquire context_ok h in
    let opened = record o { context = context' } in
    if not context_ok
    then ok (false, opened, h')
    else if not wsi_ok
    then (do closed ← release context' h'; ok (false, opened, closed))
    else (let end = service_until_connected service service_rounds (record opened { wsi = true }) in
        ok (end.connected, end, h'))

unfoldable pub release_all : List ℕ → Blocks → Exec Blocks
release_all [] h = ok h
release_all (b ∷ bs) h = do freed ← release (some b) h; release_all bs freed

unfoldable pub client_destroy : Owned → Blocks → Exec (Owned × Blocks)
client_destroy o h = do
  closed ← release o.context h
  freed ← release o.recv_buf closed
  emptied ← release_all o.queued freed
  ok (record o { running = false; context = none; recv_buf = none; queued = [] }, emptied)
