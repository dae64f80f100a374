-- ===== src/Desktop/Callback/Reassembly.antt =====
-- Fragments are put together.
use esp32s3_box3_doubao.Common.{
  ℕ, ◌+◌, ◌*◌, ◌^◌, ◌≤◌, ◌<◌, ◌≡◌, refl, Bool, true, false, some, List, [], ◌∷◌, ◌++◌, append_assoc,
  append-nil, length, length-append, arith, Exec, ok, ◌>>=◌, ltb, if◌then◌else◌,
}
use esp32s3_box3_doubao.Common.Words.{add_size64, mul_size64}
use esp32s3_box3_doubao.Desktop.Host.{Host}
use esp32s3_box3_doubao.Desktop.State.{Client, Lws}
use esp32s3_box3_doubao.Desktop.Callback.{
  receive, quietly, grow, append_fragment, complete, receive_with, lws_callback,
}

-- The fragments of one message, the last one final, with all that is handed to `on_recv`.
unfoldable pub receive_all :
    Host → Lws → Client → List ℕ → List (List ℕ) → Exec (Client × List (List ℕ))
receive_all H L client bytes [] = do
  called ← lws_callback H L client (receive bytes true)
  ok (called.client, called.delivered)
receive_all H L client bytes (next ∷ rest) = do
  called ← lws_callback H L client (receive bytes false)
  (end, delivered) ← receive_all H L called.client next rest
  ok (end, called.delivered ++ delivered)

abbrev pub join : List (List ℕ) → List ℕ
join [] = []
join (bytes ∷ rest) = bytes ++ join rest

-- There is a buffer, it holds what was received, and a message can be handed on.
pub record IsReady (client : Client) : Type 0 where
  pub buffer : client.recv_buf ≡ true
  pub held : length client.recv_data ≤ client.recv_buf_cap
  pub has_callback : client.has_recv ≡ true

-- The client with a fragment more in its buffer.
abbrev holding : Client → ℕ → List ℕ → Client
holding client cap bytes = record client {
  recv_buf = true;
  recv_data = client.recv_data ++ bytes;
  recv_buf_cap = cap;
}

module _ (H : Host) (L : Lws) (client : Client) (bytes : List ℕ) (v : IsReady client)
    (small : length client.recv_data + length bytes < 2 ^ 62) where
  abbrev capacity_for : ℕ
  capacity_for =
      let needed = length client.recv_data + length bytes in
      if ltb client.recv_buf_cap needed
      then (if ltb (needed * 2) 8192 then 8192 else needed * 2)
      else client.recv_buf_cap

  grow_lem :
      ((n : ℕ) → H.realloc n ≡ true)
      → grow H client (add_size64 (length client.recv_data) (length bytes))
        ≡ some (true, capacity_for)
  unfolding grow
  grow_lem room = ground (
    arith,
    v.buffer,
    room (mul_size64 (add_size64 (length client.recv_data) (length bytes)) 2),
    room 8192,
  )

  append_fragment_lem :
      (cap : ℕ)
      → length client.recv_data + length bytes ≤ cap
      → append_fragment client true cap bytes ≡ ok (holding client cap bytes)
  unfolding append_fragment
  append_fragment_lem cap fits = ground arith

  roomy : length client.recv_data + length bytes ≤ capacity_for
  roomy = ground arith

  fragment_lem :
      (final : Bool)
      → ((n : ℕ) → H.realloc n ≡ true)
      → lws_callback H L client (receive bytes final)
        ≡ ok (complete final (holding client capacity_for bytes))
  unfolding lws_callback receive_with ◌>>=◌
  fragment_lem final room = rw (grow_lem room, append_fragment_lem capacity_for roomy) refl

  holding-IsReady :
      (cap : ℕ) → length client.recv_data + length bytes ≤ cap → IsReady (holding client cap bytes)
  holding-IsReady cap fits = record {
    buffer = refl;
    held = omega (arith, length-append client.recv_data bytes);
    has_callback = v.has_callback;
  }

-- What a run of the callback leaves: an empty buffer, and one message handed on.
abbrev pub Delivers : Exec (Client × List (List ℕ)) → List ℕ → Type 0
Delivers r message =
    (end : Client) × (r ≡ ok (end, message ∷ [])) × (end.recv_data ≡ []) × IsReady end

-- While memory lasts, a message in any fragments, empty ones included, is handed on once, whole,
-- behind what the buffer held, and the buffer is left empty.
pub receive_all-Delivers :
    (H : Host) (L : Lws) (client : Client) (bytes : List ℕ) (rest : List (List ℕ))
    → ((n : ℕ) → H.realloc n ≡ true)
    → IsReady client
    → length client.recv_data + length bytes + length (join rest) < 2 ^ 62
    → Delivers (receive_all H L client bytes rest) (client.recv_data ++ (bytes ++ join rest))
unfolding receive_all complete ◌>>=◌
receive_all-Delivers H L client bytes [] room v small = (
  record (holding client (capacity_for H L client bytes v (omega arith)) bytes) { recv_data = [] },
  rw (fragment_lem H L client bytes v (omega arith) true room, v.has_callback, append-nil bytes)
      refl,
  refl,
  record { buffer = refl; held = omega arith; has_callback = v.has_callback },
)
receive_all-Delivers H L client bytes (next ∷ rest) room v small =
    let held : Client = holding client (capacity_for H L client bytes v (omega arith)) bytes in
    let (end, e, empty, ready) =
      receive_all-Delivers H L held next rest room
        (holding-IsReady H L client bytes v (omega arith) _
          (roomy H L client bytes v (omega arith)))
        (omega (arith, length-append client.recv_data bytes, length-append next (join rest))) in
    (
      end,
      rw
          (
            fragment_lem H L client bytes v (omega arith) false room,
            e,
            append_assoc client.recv_data bytes (next ++ join rest),
          )
          refl,
      empty,
      ready,
    )

module _ (H : Host) (L : Lws) (client : Client) (bytes : List ℕ) (v : IsReady client) where
  fragment_dropped :
      ((n : ℕ) → H.realloc n ≡ false)
      → length client.recv_data + length bytes < 2 ^ 62
      → client.recv_buf_cap < length client.recv_data + length bytes
      → lws_callback H L client (receive bytes false) ≡ ok (quietly client)
  unfolding lws_callback receive_with grow
  fragment_dropped short small big = ground (
    arith,
    short 8192,
    short (mul_size64 (add_size64 (length client.recv_data) (length bytes)) 2),
  )

  fragment_last :
      length client.recv_data + length bytes < 2 ^ 62
      → length client.recv_data + length bytes ≤ client.recv_buf_cap
      → lws_callback H L client (receive bytes true)
        ≡ ok (complete true (holding client client.recv_buf_cap bytes))
  unfolding lws_callback receive_with ◌>>=◌
  fragment_last small fits =
      rw (unchanged, append_fragment_lem H L client bytes v small client.recv_buf_cap fits) refl
    where
      unchanged :
          grow H client (add_size64 (length client.recv_data) (length bytes))
          ≡ some (true, client.recv_buf_cap)
      unchanged = unfold grow in ground (arith, v.buffer)

-- When memory is short, a fragment that needs a larger buffer is dropped without a word: the
-- fragments around it are handed on as one message, with a hole in place of the lost one.
pub receive_all_hole :
    (H : Host) (L : Lws) (client : Client) (lost bytes : List ℕ)
    → ((n : ℕ) → H.realloc n ≡ false)
    → IsReady client
    → length client.recv_data + length lost < 2 ^ 62
    → length client.recv_data + length bytes < 2 ^ 62
    → client.recv_buf_cap < length client.recv_data + length lost
    → length client.recv_data + length bytes ≤ client.recv_buf_cap
    → Delivers (receive_all H L client lost (bytes ∷ [])) (client.recv_data ++ bytes)
unfolding receive_all complete ◌>>=◌
receive_all_hole H L client lost bytes short v small small' big fits = (
  record (holding client client.recv_buf_cap bytes) { recv_data = [] },
  rw
      (
        fragment_dropped H L client lost v short small big,
        fragment_last H L client bytes v small' fits,
        v.has_callback,
      )
      refl,
  refl,
  record { buffer = refl; held = omega arith; has_callback = v.has_callback },
)
