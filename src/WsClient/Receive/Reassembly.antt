-- ===== src/WsClient/Receive/Reassembly.antt =====
-- A frame that arrives in chunks is parsed once, as a whole.
use esp32s3_box3_doubao.Common.{
  ℕ, ◌+◌, ◌*◌, ◌^◌, ◌≤◌, ◌<◌, ◌≡◌, refl, ap, Bool, true, some, List, [], ◌∷◌, ◌++◌, append_assoc,
  append-nil, arith, length, length-append, ltb, ◌&&◌, ◌∙◌, ok, ◌>>=◌, if◌then◌else◌,
}
use esp32s3_box3_doubao.Common.Words.{add_size}
use esp32s3_box3_doubao.Protocol.Platform.{Platform}
use esp32s3_box3_doubao.Protocol.Response.{Response, parse_response}
use esp32s3_box3_doubao.WsClient.State.{WsClient}
use esp32s3_box3_doubao.WsClient.Receive.{
  Chunk, WsEvent, data_event, deliver, grow, append_chunk, complete, receive_with, receive,
  ws_event_handler, run_events,
}
use esp32s3_box3_doubao.WsClient.Receive.Bounds.{Fits}

abbrev pub join : List (List ℕ) → List ℕ
join [] = []
join (bytes ∷ rest) = bytes ++ join rest

-- A binary frame of `total` bytes, from offset `offset` on, in chunks.
abbrev pub chunked : ℕ → ℕ → List (List ℕ) → List WsEvent
chunked total offset [] = []
chunked total offset (bytes ∷ rest) =
    data_event
      (record { op_code = 0x02; data_ptr = bytes; payload_len = total; payload_offset = offset })
    ∷ chunked total (offset + length bytes) rest

abbrev pub AllNonempty : List (List ℕ) → Type 0
AllNonempty [] = Unit
AllNonempty (bytes ∷ rest) = (0 < length bytes) × AllNonempty rest

abbrev always : ℕ → Bool
always n = true

abbrev capacity_for : WsClient → List ℕ → ℕ
capacity_for client bytes =
    let needed = length client.recv_data + length bytes in
    if ltb client.recv_buf_cap needed
    then (if ltb (needed * 2) 8192 then 8192 else needed * 2)
    else client.recv_buf_cap

abbrev holding : WsClient → List ℕ → WsClient
holding client bytes = record client {
  recv_data = client.recv_data ++ bytes;
  recv_buf_cap = capacity_for client bytes;
}

module _ (P : Platform) (client : WsClient) (bytes : List ℕ) (total offset : ℕ) (v : Fits client)
    (nonempty : 0 < length bytes) (small : length client.recv_data + length bytes < 2 ^ 30) where
  grow_lem :
      grow always client.recv_buf_cap (add_size (length client.recv_data) (length bytes))
      ≡ some (capacity_for client bytes)
  unfolding grow
  grow_lem = ground arith

  roomy :
      (length client.recv_data + length bytes ≤ capacity_for client bytes)
      × (capacity_for client bytes < 2 ^ 31)
  roomy = ground arith

  holding-Fits : Fits (holding client bytes)
  holding-Fits = ground (arith, roomy, length-append client.recv_data bytes)

  abbrev chunk : Chunk
  chunk = record { op_code = 0x02; data_ptr = bytes; payload_len = total; payload_offset = offset }

  append_chunk_lem :
      append_chunk client (capacity_for client bytes) bytes ≡ ok (holding client bytes)
  unfolding append_chunk
  append_chunk_lem = ground (arith, roomy)

  middle_chunk :
      offset + length bytes < total
      → ws_event_handler P always client (data_event chunk) ≡ ok (holding client bytes, [])
  unfolding ws_event_handler receive receive_with ◌>>=◌
  middle_chunk more = rw (grow_lem, append_chunk_lem) (ground arith)

  last_chunk :
      total ≤ offset + length bytes
      → ws_event_handler P always client (data_event chunk) ≡ complete P (holding client bytes)
  unfolding ws_event_handler receive receive_with ◌>>=◌
  last_chunk done = rw (grow_lem, append_chunk_lem) (ground arith)

complete_lem :
    (P : Platform) (client : WsClient) (out : List Response)
    → client.has_recv ≡ true
    → 0 < length client.recv_data
    → deliver (parse_response P client.recv_data) ≡ ok out
    → complete P client ≡ ok (record client { recv_data = [] }, out)
unfolding complete ◌>>=◌
complete_lem P client out cb nonempty e = rw (tested, e)
  where
    tested : (client.has_recv && ltb 0 (length client.recv_data)) ≡ true
    tested = ground arith

-- What a run of the handler leaves: nothing in the buffer, and the responses `out` handed on.
abbrev pub Delivers : Platform → WsClient → List WsEvent → List Response → Type 0
Delivers P client events out =
    (end : WsClient) × (run_events P always client events ≡ ok (end, out))
    × (end.recv_data ≡ [])
    × Fits end

run_one :
    (P : Platform) (client : WsClient) (e : WsEvent) {next : WsClient} {out : List Response}
    → ws_event_handler P always client e ≡ ok (next, out)
    → next.recv_data ≡ []
    → Fits next
    → Delivers P client (e ∷ []) out
unfolding run_events ◌>>=◌
run_one P client e {next} {out} h empty v =
    (next, rw h (ap (λ l. ok (next, l)) (append-nil out)), empty, v)

run_more :
    (P : Platform) (client : WsClient) (e : WsEvent) (es : List WsEvent) {next : WsClient}
    {out : List Response}
    → ws_event_handler P always client e ≡ ok (next, [])
    → Delivers P next es out
    → Delivers P client (e ∷ es) out
unfolding run_events ◌>>=◌
run_more P client e es h (end, r, empty, v) = (end, rw (h, r), empty, v)

-- A frame cut into chunks that are not empty, at any places, for a client with a callback, while every
-- `realloc` succeeds and fewer than 2 ^ 30 bytes come together: whatever the buffer held, followed by
-- the whole frame, is parsed once, at the last chunk, provided that the parser does not fault on it,
-- and the buffer is left empty.
pub run_events-chunked :
    (P : Platform) (client : WsClient) (bytes : List ℕ) (rest : List (List ℕ)) (total offset : ℕ)
    (out : List Response)
    → Fits client
    → client.has_recv ≡ true
    → AllNonempty (bytes ∷ rest)
    → length client.recv_data + length bytes + length (join rest) < 2 ^ 30
    → total ≡ offset + length bytes + length (join rest)
    → deliver (parse_response P (client.recv_data ++ (bytes ++ join rest))) ≡ ok out
    → Delivers P client (chunked total offset (bytes ∷ rest)) out
run_events-chunked P client bytes [] total offset out v cb ne small t e =
    run_one P client _
      (last_chunk P client bytes total offset v ne.0 (omega arith) (omega arith)
        ∙ complete_lem P (holding client bytes) out cb
            (omega (arith, length-append client.recv_data bytes)) (rw (append-nil bytes) at e))
      refl (omega (arith, roomy P client bytes total offset v ne.0 (omega arith)))
run_events-chunked P client bytes (b ∷ rs) total offset out v cb ne small t e =
    run_more P client _ (chunked total (offset + length bytes) (b ∷ rs))
      (middle_chunk P client bytes total offset v ne.0 (omega arith)
        (omega (arith, length-append b (join rs))))
      (run_events-chunked P (holding client bytes) b rs total (offset + length bytes) out
        (holding-Fits P client bytes total offset v ne.0 (omega arith)) cb ne.1
        (omega (arith, length-append client.recv_data bytes, length-append b (join rs)))
        (omega (arith, length-append b (join rs)))
        (rw (append_assoc client.recv_data bytes (b ++ join rs)) e))
