-- ===== src/Desktop/Callback.antt =====
-- `lws_callback` and `append_header` of doubao_c_version/client.c.
pub mod Wakeup
pub mod Reassembly
use esp32s3_box3_doubao.Common.{
  ℕ, ◌+◌, ◌-◌, Bool, true, false, not, ◌&&◌, ◌||◌, Option, none, some, List, [], ◌∷◌, ◌++◌, length,
  take, ltb, Exec, ok, fault, ◌>>=◌, if◌then◌else◌,
}
use esp32s3_box3_doubao.Common.Text.{utf8, snprintf}
use esp32s3_box3_doubao.Common.Words.{add_size64, mul_size64}
use esp32s3_box3_doubao.Desktop.Host.{Host}
use esp32s3_box3_doubao.Desktop.SendQueue.{SendQueue, Written, writeable}
use esp32s3_box3_doubao.Desktop.State.{Client, Lws}

-- `receive` has the bytes and whether this is the final fragment.
pub data Reason : Type 0 where
  append_handshake_header established writeable_now connection_error closed other_reason : Reason
  receive : List ℕ → Bool → Reason

-- What one call did: the client, the messages handed to `on_recv`, the frame written, and whether
-- it returns 0.
pub record Called : Type 0 where
  pub client : Client
  pub delivered : List (List ℕ)
  pub frame : Option (List ℕ)
  pub done : Bool

abbrev pub quietly : Client → Called
quietly client = record { client = client; delivered = []; frame = none; done = true }

-- Each of the headers in turn, up to the first that cannot be added.
unfoldable pub append_headers : Lws → List (List ℕ × List ℕ) → Bool
append_headers L [] = true
append_headers L ((name, value) ∷ rest) =
    L.add_http_header (snprintf 256 (name ++ utf8 ":")) value && append_headers L rest

abbrev pub headers_of : Client → List (List ℕ × List ℕ)
headers_of client =
    (utf8 "X-Api-App-ID", client.app_id)
    ∷ (utf8 "X-Api-Access-Key", client.access_key)
    ∷ (utf8 "X-Api-Resource-Id", client.resource_id)
    ∷ (utf8 "X-Api-App-Key", client.app_key)
    ∷ (utf8 "X-Api-Connect-Id", client.connect_id)
    ∷ []

abbrev noted_logid : Option (List ℕ) → List ℕ → List ℕ
noted_logid none old = old
noted_logid (some text) old = if ltb 0 (length text) then take 255 text else old

unfoldable pub establish : Lws → Client → Client
establish L client = record client {
  connected = true;
  logid = noted_logid L.hdr_custom client.logid;
  wanted = true;
}

-- Whether there is a buffer that holds `needed` bytes, and its capacity; `none` is a `realloc` that
-- fails.
unfoldable pub grow : Host → Client → ℕ → Option (Bool × ℕ)
grow H client needed =
    let doubled = mul_size64 needed 2 in
    let new_cap = if ltb doubled 8192 then 8192 else doubled in
    if not (ltb client.recv_buf_cap needed)
    then some (client.recv_buf, client.recv_buf_cap)
    else if H.realloc new_cap
    then some (true, new_cap)
    else none

-- `memcpy` behind what is held, into a buffer of `cap` bytes: a fault if it does not fit, or if there
-- is no buffer.
unfoldable pub append_fragment : Client → Bool → ℕ → List ℕ → Exec Client
append_fragment client buffer cap bytes =
    if not buffer || ltb cap (length client.recv_data + length bytes)
    then fault
    else ok (record client {
      recv_buf = buffer;
      recv_data = client.recv_data ++ bytes;
      recv_buf_cap = cap;
    })

-- The final fragment: the message is handed on, and the buffer emptied.
unfoldable pub complete : Bool → Client → Called
complete final client =
    if final
    then record {
      client = record client { recv_data = [] };
      delivered = if client.has_recv then client.recv_data ∷ [] else [];
      frame = none;
      done = true;
    }
    else quietly client

-- A fragment for which the buffer cannot grow is dropped.
unfoldable pub receive_with : Client → List ℕ → Bool → Option (Bool × ℕ) → Exec Called
unfolding append_fragment
receive_with client bytes final none = ok (quietly client)
receive_with client bytes final (some (buffer, cap)) = do
  held ← append_fragment client buffer cap bytes
  ok (complete final held)

-- The socket is writable: the request that is now met, and perhaps the next one.
abbrev pub after_write : Client → Written → Called
after_write client w = record {
  client = record client { queue = w.queue; wanted = w.again };
  delivered = [];
  frame = w.frame;
  done = not w.closes;
}

unfoldable pub lws_callback : Host → Lws → Client → Reason → Exec Called
lws_callback H L client append_handshake_header =
    ok (record (quietly client) { done = append_headers L (headers_of client) })
lws_callback H L client established = ok (quietly (establish L client))
lws_callback H L client (receive bytes final) =
    receive_with client bytes final
      (grow H client (add_size64 (length client.recv_data) (length bytes)))
lws_callback H L client writeable_now = do
  w ← writeable L.write client.queue
  ok (after_write client w)
lws_callback H L client connection_error =
    ok (quietly (record client { connected = false; running = false }))
lws_callback H L client closed = ok (quietly (record client { connected = false; running = false }))
lws_callback H L client other_reason = ok (quietly client)
