-- ===== src/Desktop/Callback/Wakeup.antt =====
-- No queued frame is forgotten.
use esp32s3_box3_doubao.Common.{
  ℕ, ◌≡◌, refl, sym, ap, ◌∙◌, ◌+◌, length, ltb, Yields-map, Bool, true, false, not, ◌||◌, Option,
  none, some, List, arith, ok, Yields, gives, none_faulted, Yields-bind, Yields-then, Yields-if,
  Yields-result, ◌==◌, Bool-cases, inl, inr,
}
use esp32s3_box3_doubao.Desktop.Host.{Host}
use esp32s3_box3_doubao.Desktop.SendQueue.{SendQueue, client_send_raw, slot_at, writeable}
use esp32s3_box3_doubao.Desktop.State.{Client, Lws}
use esp32s3_box3_doubao.Desktop.Send.{send_raw}
use esp32s3_box3_doubao.Desktop.Callback.{
  Reason, append_handshake_header, established, writeable_now, connection_error, closed,
  other_reason, receive, Called, quietly, append_headers, headers_of, establish, append_fragment,
  complete, receive_with, lws_callback,
}

-- `broken` says that a callback has returned -1, which makes the library drop the connection.
pub record Session : Type 0 where
  pub client : Client
  pub broken : Bool

abbrev pub has_frames : SendQueue → Bool
has_frames q = not (q.send_head == q.send_tail)

-- A thread sends, or the library calls back. It reports a connection only on the handle that
-- `client_connect` has stored.
pub data Step (H : Host) (L : Lws) : Session → Session → Type 0 where
  sends :
      {s : Session} (room : Bool) (frame : List ℕ)
      → Step H L s (record s { client = (send_raw room s.client frame).1 })
  calls_back :
      {s : Session} (reason : Reason) {called : Called}
      → (reason ≡ established → s.client.wsi ≡ true)
      → lws_callback H L s.client reason ≡ ok called
      → Step H L s (record { client = called.client; broken = s.broken || not called.done })

pub data Reach (H : Host) (L : Lws) (start : Session) : Session → Type 0 where
  here : Reach H L start start
  more : {s t : Session} → Reach H L start s → Step H L s t → Reach H L start t

-- On a connection that works, a writable callback is on its way whenever a frame is queued.
pub record IsAwake (s : Session) : Type 0 where
  pub has_wsi : s.client.connected ≡ true → s.client.wsi ≡ true
  pub awaited :
      s.broken ≡ false
      → s.client.connected ≡ true
      → has_frames s.client.queue ≡ true
      → s.client.wanted ≡ true

send_raw-IsAwake :
    (s : Session) (room : Bool) (frame : List ℕ)
    → IsAwake s
    → IsAwake (record s { client = (send_raw room s.client frame).1 })
unfolding send_raw
send_raw-IsAwake s room frame v = elim (Bool-cases (client_send_raw room s.client.queue frame).0) [
  | inl queued ↦
      rw queued
        (record { has_wsi = v.has_wsi; awaited = λ sound up waiting. ground (arith, v.has_wsi up) })
  | inr refused ↦ rw refused v
]

-- Queue, handle, request and connection are left alone.
record Keeps (client client' : Client) : Type 0 where
  queue : client'.queue ≡ client.queue
  wsi : client'.wsi ≡ client.wsi
  wanted : client'.wanted ≡ client.wanted
  connected : client'.connected ≡ client.connected

append_fragment-Keeps :
    (client : Client) (buffer : Bool) (cap : ℕ) (bytes : List ℕ)
    → Yields (Keeps client) (append_fragment client buffer cap bytes)
unfolding append_fragment
append_fragment-Keeps client buffer cap bytes =
    Yields-if (not buffer || ltb cap (length client.recv_data + length bytes)) none_faulted
      (gives _ (record { queue = refl; wsi = refl; wanted = refl; connected = refl }))

complete-Keeps : (final : Bool) (client : Client) → Keeps client (complete final client).client
unfolding complete
complete-Keeps true client = record { queue = refl; wsi = refl; wanted = refl; connected = refl }
complete-Keeps false client = record { queue = refl; wsi = refl; wanted = refl; connected = refl }

Keeps-trans : (a b c : Client) → Keeps a b → Keeps b c → Keeps a c
Keeps-trans a b c p q = record {
  queue = q.queue ∙ p.queue;
  wsi = q.wsi ∙ p.wsi;
  wanted = q.wanted ∙ p.wanted;
  connected = q.connected ∙ p.connected;
}

receive_with-Keeps :
    (client : Client) (bytes : List ℕ) (final : Bool) (grown : Option (Bool × ℕ))
    → Yields (λ called. Keeps client called.client) (receive_with client bytes final grown)
unfolding receive_with
receive_with-Keeps client bytes final none =
    gives _ (record { queue = refl; wsi = refl; wanted = refl; connected = refl })
receive_with-Keeps client bytes final (some (buffer, cap)) =
    Yields-then (append_fragment-Keeps client buffer cap bytes) λ held k.
      gives _ (Keeps-trans client held (complete final held).client k (complete-Keeps final held))

module _ (client : Client) (broken : Bool)
    (v : IsAwake (record { client = client; broken = broken })) where
  abbrev After : Called → Type 0
  After called = IsAwake (record { client = called.client; broken = broken || not called.done })

  left_false : (a b : Bool) → (a || b) ≡ false → a ≡ false
  left_false a b e = ground arith

  kept : (called : Called) → Keeps client called.client → After called
  kept called k = record {
    has_wsi = λ up. k.wsi ∙ v.has_wsi (sym k.connected ∙ up);
    awaited = λ sound up waiting.
        k.wanted
        ∙ v.awaited (left_false broken (not called.done) sound) (sym k.connected ∙ up)
            (ap has_frames (sym k.queue) ∙ waiting);
  }

  cut_off : (called : Called) → called.client.connected ≡ false → After called
  cut_off called down = record {
    has_wsi = λ up. absurd cc;
    awaited = λ sound up waiting. absurd cc;
  }

  establish-IsAwake : (L : Lws) → client.wsi ≡ true → After (quietly (establish L client))
  unfolding establish
  establish-IsAwake L h = record { has_wsi = λ up. h; awaited = λ sound up waiting. refl }

  writeable-IsAwake :
      (lws_write : List ℕ → Bool)
      → Yields
          (λ w. w.closes ≡ false → w.again ≡ has_frames w.queue)
          (writeable lws_write client.queue)
  unfolding writeable
  writeable-IsAwake lws_write =
      elim (Bool-cases (client.queue.send_head == client.queue.send_tail)) [
        | inl empty ↦ rw empty (gives _ (λ stays. rw empty))
        | inr full ↦ rw full (
            Yields-bind (slot_at client.queue client.queue.send_head)
              λ frame. gives _ (λ stays. ground arith))
      ]

  lws_callback-IsAwake :
      (H : Host) (L : Lws) (reason : Reason)
      → (reason ≡ established → client.wsi ≡ true)
      → Yields After (lws_callback H L client reason)
  unfolding lws_callback
  lws_callback-IsAwake H L append_handshake_header h = gives _ (
      kept (record (quietly client) { done = append_headers L (headers_of client) })
        (record { queue = refl; wsi = refl; wanted = refl; connected = refl }))
  lws_callback-IsAwake H L established h = gives _ (establish-IsAwake L (h refl))
  lws_callback-IsAwake H L (receive bytes final) h =
      Yields-map (λ called k. kept called k) (receive_with-Keeps client bytes final _)
  lws_callback-IsAwake H L writeable_now h = Yields-then (writeable-IsAwake L.write) λ w e.
      gives _
        (record { has_wsi = v.has_wsi; awaited = λ sound up waiting. e (ground arith) ∙ waiting })
  lws_callback-IsAwake H L connection_error h =
      gives _ (cut_off (quietly (record client { connected = false; running = false })) refl)
  lws_callback-IsAwake H L closed h =
      gives _ (cut_off (quietly (record client { connected = false; running = false })) refl)
  lws_callback-IsAwake H L other_reason h =
      gives _ (
        kept (quietly client)
          (record { queue = refl; wsi = refl; wanted = refl; connected = refl }))

module _ (H : Host) (L : Lws) where
  Step-IsAwake : {s t : Session} → Step H L s t → IsAwake s → IsAwake t
  Step-IsAwake {s} (sends room frame) v = send_raw-IsAwake s room frame v
  Step-IsAwake {s} (calls_back reason h e) v =
      Yields-result (After s.client s.broken v)
        (lws_callback-IsAwake s.client s.broken v H L reason h) e

  -- In every order of sends and callbacks, while the connection stands, a queued frame has a writable
  -- callback coming that will write it: none is forgotten in the queue.
  pub Reach-IsAwake : {s t : Session} → Reach H L s t → IsAwake s → IsAwake t
  Reach-IsAwake here v = v
  Reach-IsAwake (more r step) v = Step-IsAwake step (Reach-IsAwake r v)
