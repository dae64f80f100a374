-- ===== src/WsClient/Lifecycle.antt =====
-- `doubao_ws_init`, `doubao_ws_set_recv_callback`, `doubao_ws_connect` and `doubao_ws_destroy` of
-- main/doubao_ws_client.c, over an explicit set of the blocks that are allocated.
pub mod Laws
use esp32s3_box3_doubao.Common.{
  ℕ, ◌+◌, ◌*◌, Bool, true, false, not, ◌&&◌, ◌||◌, Option, none, some, List, [], ◌∷◌, ◌==◌, Exec,
  ok, fault, ◌>>=◌, if◌then◌else◌,
}
use esp32s3_box3_doubao.WsClient.State.{WsConfig, WsClient}

-- The blocks, handles and event groups in use, and the number of the next one.
pub record Blocks : Type 0 where
  pub next : ℕ
  pub live : List ℕ

abbrev pub contains : List ℕ → ℕ → Bool
contains [] b = false
contains (x ∷ xs) b = x == b || contains xs b

abbrev pub remove : List ℕ → ℕ → List ℕ
remove [] b = []
remove (x ∷ xs) b = if x == b then xs else x ∷ remove xs b

-- An allocation that succeeds or not.
unfoldable pub acquire : Bool → Blocks → Option ℕ × Blocks
acquire true h = (some h.next, record { next = h.next + 1; live = h.next ∷ h.live })
acquire false h = (none, h)

-- `free(p)`, or the call that gives a handle back. Releasing what is not in use is a fault.
unfoldable pub release : Option ℕ → Blocks → Exec Blocks
release none h = ok h
release (some b) h = if contains h.live b then ok (record h { live = remove h.live b }) else fault

abbrev pub recv_buf_init_size : ℕ
recv_buf_init_size = 64 * 1024

-- Which of the calls of `doubao_ws_init` succeed, and the two identifiers that `generate_uuid` makes.
pub record InitEnv : Type 0 where
  pub spiram_ok : Bool
  pub malloc_ok : Bool
  pub event_group_ok : Bool
  pub session_uuid : List ℕ
  pub connect_uuid : List ℕ

-- `memset`, the configuration and the identifiers.
abbrev pub blank : InitEnv → WsConfig → WsClient
blank env config = record {
  ws_handle = none;
  session_id = env.session_uuid;
  connect_id = env.connect_uuid;
  config = config;
  recv_buf = none;
  recv_data = [];
  recv_buf_cap = 0;
  has_recv = false;
  event_group = none;
  connected_bit = false;
  disconnected_bit = false;
  connected = false;
  running = false;
}

-- The second part, with the receive buffer in place. On failure the buffer is freed, and the field
-- keeps its address.
init_event_group : InitEnv → WsClient → Blocks → Exec (Bool × WsClient × Blocks)
init_event_group env client h =
    let (group, h') = acquire env.event_group_ok h in
    let with_group = record client { event_group = group } in
    if env.event_group_ok
    then ok (true, record with_group { connected = false; running = true }, h')
    else do freed ← release client.recv_buf h'; ok (false, with_group, freed)

-- The first component is whether the function returns 0.
unfoldable pub doubao_ws_init : InitEnv → WsConfig → Blocks → Exec (Bool × WsClient × Blocks)
unfolding init_event_group
doubao_ws_init env config h =
    let (buf, h') = acquire (env.spiram_ok || env.malloc_ok) h in
    let client = record (blank env config) { recv_buf = buf } in
    if env.spiram_ok || env.malloc_ok
    then init_event_group env (record client { recv_data = []; recv_buf_cap = recv_buf_init_size })
        h'
    else ok (false, client, h')

unfoldable pub doubao_ws_set_recv_callback : WsClient → Bool → WsClient
doubao_ws_set_recv_callback client cb = record client { has_recv = cb }

-- Which of the calls of `doubao_ws_connect` succeed. `connected_in_time` is the bit
-- WS_EVENT_CONNECTED in what `xEventGroupWaitBits` returns.
pub record ConnectEnv : Type 0 where
  pub handle_ok : Bool
  pub start_ok : Bool
  pub connected_in_time : Bool

give_up : WsClient → Blocks → Exec (Bool × WsClient × Blocks)
give_up client h = do
  destroyed ← release client.ws_handle h
  ok (false, record client { ws_handle = none }, destroyed)

-- The first part of `doubao_ws_connect`, up to the wait.
unfoldable pub open_transport : Bool → Bool → WsClient → Blocks → Exec (Bool × WsClient × Blocks)
unfolding give_up
open_transport handle_ok start_ok client h =
    let (handle, h') = acquire handle_ok h in
    let opened = record client { ws_handle = handle } in
    if not handle_ok
    then ok (false, opened, h')
    else if not start_ok
    then give_up opened h'
    else ok (true, opened, h')

-- What follows the wait. It ends by a bit, and clears both (`xClearOnExit` is pdTRUE), or by the
-- timeout, with neither set.
unfoldable pub await_connection : WsClient → Blocks → Exec (Bool × WsClient × Blocks)
unfolding give_up
await_connection client h =
    let waited = record client { connected_bit = false; disconnected_bit = false } in
    if not client.connected_bit then give_up waited h else ok (true, waited, h)

unfoldable pub doubao_ws_connect : ConnectEnv → WsClient → Blocks → Exec (Bool × WsClient × Blocks)
unfolding open_transport await_connection
doubao_ws_connect env client h = do
  (opened, client', h') ← open_transport env.handle_ok env.start_ok client h
  if opened
      then await_connection (record client' { connected_bit = env.connected_in_time }) h'
      else ok (false, client', h')

unfoldable pub doubao_ws_is_connected : WsClient → Bool
doubao_ws_is_connected client = client.connected

-- `xEventGroupSetBits` on the way only wakes waiting tasks: the group is deleted at the end.
unfoldable pub doubao_ws_destroy : WsClient → Blocks → Exec (WsClient × Blocks)
doubao_ws_destroy client h = do
  closed ← release client.ws_handle h
  freed ← release client.recv_buf closed
  deleted ← release client.event_group freed
  ok (
    record client {
      running = false;
      connected = false;
      ws_handle = none;
      recv_buf = none;
      event_group = none;
    },
    deleted,
  )
