-- ===== src/WsClient/Receive/Bounds.antt =====
-- The receive buffer is never overrun.
use esp32s3_box3_doubao.Common.{
  ℕ, ◌+◌, ◌^◌, ◌≤◌, ◌<◌, ◌≡◌, refl, Bool, [], arith, length, length-append, Option, none, some,
  Exec, Ensures, Ensures-bind, Ensures-if, returns, fails, ltb, leb, ◌==◌, ◌||◌, ◌&&◌,
}
use esp32s3_box3_doubao.Common.Words.{add_size}
use esp32s3_box3_doubao.Protocol.Platform.{Platform}
use esp32s3_box3_doubao.Protocol.Response.{Response}
use esp32s3_box3_doubao.Protocol.Response.Safety.{parse_response-safe}
use esp32s3_box3_doubao.WsClient.State.{WsClient}
use esp32s3_box3_doubao.WsClient.Receive.{
  Chunk, WsEvent, data_event, connected_event, disconnected_event, error_event, other_event,
  deliver, grow, append_chunk, complete, receive_with, receive, ws_event_handler,
}

-- What is held fits the buffer, and the buffer is no larger than half the address space.
pub record Fits (client : WsClient) : Type 0 where
  pub held : length client.recv_data ≤ client.recv_buf_cap
  pub bounded : client.recv_buf_cap < 2 ^ 31

deliver-safe : {m : Exec Response} → Ensures (λ _. Unit {0}) m → Ensures (λ _. Unit {0}) (deliver m)
unfolding deliver
deliver-safe (returns resp _) = returns _ tt
deliver-safe fails = returns _ tt

-- A chunk that, joined to what is held, leaves room for doubling.
abbrev IsModest : WsClient → WsEvent → Type 0
IsModest client (data_event chunk) = length client.recv_data + length chunk.data_ptr < 2 ^ 30
IsModest client _ = Unit

-- A buffer that could grow holds what is needed, and not more than twice that or 8192 bytes.
grow_bounds :
    (realloc : ℕ → Bool) (cap needed new_cap : ℕ)
    → needed < 2 ^ 30
    → cap < 2 ^ 31
    → grow realloc cap needed ≡ some new_cap
    → (needed ≤ new_cap) × (new_cap < 2 ^ 31)
unfolding grow
grow_bounds realloc cap needed new_cap small h e = ground arith

complete-Fits :
    (P : Platform) (client : WsClient)
    → Fits client
    → length client.recv_data < 2 ^ 31
    → Ensures (λ r. Fits r.0) (complete P client)
unfolding complete
complete-Fits P client v small =
    Ensures-bind
      (Ensures-if {Q = λ _. Unit {0}} (client.has_recv && ltb 0 (length client.recv_data))
        (λ _. deliver-safe (parse_response-safe P client.recv_data small)) (λ _. returns [] tt))
      λ delivered _. returns _ (ground arith)

receive_with-Fits :
    (P : Platform) (client : WsClient) (chunk : Chunk) (cap : Option ℕ)
    → Fits client
    → ((c : ℕ)
        → cap ≡ some c
        → (length client.recv_data + length chunk.data_ptr ≤ c) × (c < 2 ^ 31))
    → Ensures (λ r. Fits r.0) (receive_with P client chunk cap)
unfolding receive_with append_chunk
receive_with-Fits P client chunk none v h = returns _ (ground arith)
receive_with-Fits P client chunk (some c) v h =
    Ensures-bind
      (Ensures-if {Q = λ r. Fits r × (length r.recv_data < 2 ^ 31)}
        (ltb c (length client.recv_data + length chunk.data_ptr))
        (λ e. absurd (ground (arith, h c refl)))
        (λ e. returns _ (ground (arith, h c refl, length-append client.recv_data chunk.data_ptr))))
      λ filled v'.
        Ensures-if (leb chunk.payload_len (chunk.payload_offset + length chunk.data_ptr))
          (λ _. complete-Fits P filled v'.0 v'.1) (λ _. returns _ v'.0)

-- As long as the buffer and the chunk together have fewer than 2 ^ 30 bytes, so that the doubled size
-- of the buffer does not wrap around, and whether `realloc` succeeds or not: the handler neither
-- overruns the receive buffer nor lets the parser read outside it, and keeps the buffer fit.
pub ws_event_handler-Fits :
    (P : Platform) (realloc : ℕ → Bool) (client : WsClient) (e : WsEvent)
    → IsModest client e
    → Fits client
    → Ensures (λ r. Fits r.0) (ws_event_handler P realloc client e)
unfolding ws_event_handler receive
ws_event_handler-Fits P realloc client (data_event chunk) small v =
    Ensures-if (chunk.op_code == 0x01 || chunk.op_code == 0x02 || chunk.op_code == 0x00)
      (λ _.
        Ensures-if (length chunk.data_ptr == 0) (λ _. returns _ v)
          (λ _. receive_with-Fits P client chunk _ v (λ c e. ground (
            arith,
            grow_bounds realloc client.recv_buf_cap
                (add_size (length client.recv_data) (length chunk.data_ptr)) c,
          ))))
      (λ _. returns _ v)
ws_event_handler-Fits P realloc client connected_event small v = returns _ (ground arith)
ws_event_handler-Fits P realloc client disconnected_event small v = returns _ (ground arith)
ws_event_handler-Fits P realloc client error_event small v = returns _ v
ws_event_handler-Fits P realloc client other_event small v = returns _ v
