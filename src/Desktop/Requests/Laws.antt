-- ===== src/Desktop/Requests/Laws.antt =====
-- What the commands put in the queue.
use mathlib.Core.Path.{subst}
use esp32s3_box3_doubao.Common.{
  ℕ, ◌<◌, ◌≡◌, refl, ap, ◌∙◌, Bool, true, Option, none, some, List, [], ◌∷◌, ◌++◌, take_all, length,
  arith, Exec, ok, if◌then◌else◌, ◌||◌,
}
use esp32s3_box3_doubao.Protocol.Constants.{
  msg_client_full_request, msg_client_audio_only, flag_msg_with_event, serial_none, serial_json,
  compress_none, compress_gzip, cmd_start_connection, cmd_finish_connection, cmd_start_session,
  cmd_finish_session, cmd_task_request, cmd_say_hello, cmd_chat_text_query,
}
use esp32s3_box3_doubao.WsClient.Command.Layout.{Command, has_session}
use esp32s3_box3_doubao.Desktop.Host.{Host}
use esp32s3_box3_doubao.Desktop.State.{Client}
use esp32s3_box3_doubao.Desktop.SendQueue.{client_send_raw}
use esp32s3_box3_doubao.Desktop.SendQueue.Fifo
use esp32s3_box3_doubao.Desktop.SendQueue.Refine.{Holds, client_send_raw_refines}
use esp32s3_box3_doubao.Desktop.Send.{send_raw, send_command}
use esp32s3_box3_doubao.Desktop.Command.{pack_payload, build_command}
use esp32s3_box3_doubao.Desktop.Command.Layout.{layout, IsCommand, build_command-packed_layout}
use esp32s3_box3_doubao.Desktop.Requests.{
  empty_object, hello, query_payload, session_json, client_start_connection, client_start_session,
  client_say_hello, client_task_request, client_chat_text_query, client_finish_session,
  client_finish_connection,
}

pub data Request : Type 0 where
  start_connection start_session say_hello finish_session finish_connection : Request
  task_request : List ℕ → Request
  chat_text_query : List ℕ → Request

abbrev full_request : ℕ → Option (List ℕ) → List ℕ → Command
full_request cmd_id session payload = record {
  msg_type = msg_client_full_request;
  flags = flag_msg_with_event;
  serial = serial_json;
  cmd_id = cmd_id;
  session = session;
  payload = payload;
}

module _ (H : Host) (room : Bool) (client : Client) where
  abbrev pub command_of : Request → Command
  command_of start_connection = full_request cmd_start_connection none empty_object
  command_of start_session =
      full_request cmd_start_session (some client.session_id) (session_json H room client)
  command_of say_hello = full_request cmd_say_hello (some client.session_id) hello
  command_of finish_session = full_request cmd_finish_session (some client.session_id) empty_object
  command_of finish_connection = full_request cmd_finish_connection none empty_object
  command_of (chat_text_query content) =
      full_request cmd_chat_text_query (some client.session_id) (query_payload content)
  command_of (task_request audio) = record {
    msg_type = msg_client_audio_only;
    flags = flag_msg_with_event;
    serial = serial_none;
    cmd_id = cmd_task_request;
    session = some client.session_id;
    payload = audio;
  }

  -- Everything is compressed, but audio that is Opus already.
  abbrev pub compression_of : Request → ℕ
  compression_of (task_request audio) =
      if client.use_opus_input then compress_none else compress_gzip
  compression_of _ = compress_gzip

  abbrev pub perform : Request → Exec (Bool × Client)
  perform start_connection = client_start_connection H room client
  perform start_session = client_start_session H room client
  perform say_hello = client_say_hello H room client
  perform finish_session = client_finish_session H room client
  perform finish_connection = client_finish_connection H room client
  perform (chat_text_query content) = client_chat_text_query H room client content
  perform (task_request audio) = client_task_request H room client audio

  built : ℕ → Command → Exec (List ℕ × ℕ)
  built compress c =
      build_command H c.msg_type c.flags c.serial compress c.cmd_id c.session c.payload
        (has_session c.session)

  perform_lem :
      (request : Request)
      → perform request
        ≡ send_command room client (built (compression_of request) (command_of request))
  unfolding client_start_connection client_start_session client_say_hello client_finish_session
      client_finish_connection client_chat_text_query client_task_request built
  perform_lem start_connection = refl
  perform_lem start_session = refl
  perform_lem say_hello = refl
  perform_lem finish_session = refl
  perform_lem finish_connection = refl
  perform_lem (chat_text_query content) = refl
  perform_lem (task_request audio) = refl

  send_raw-queue :
      (frame : List ℕ)
      → (client_send_raw room client.queue frame).0 ≡ true
      → send_raw room client frame ≡ (
        true,
        record client {
          queue = (client_send_raw room client.queue frame).1;
          wanted = client.wsi || client.wanted;
        },
      )
  unfolding send_raw
  send_raw-queue frame e = rw e refl

-- Nothing of the client but its queue, which holds `frames`, is changed; a writable callback is asked
-- for.
abbrev pub Queues : Exec (Bool × Client) → Client → List (List ℕ) → Type 0
Queues r client frames =
    (after : Client) × (r ≡ ok (true, after))
    × Holds after.queue frames
    × (after.wanted ≡ (client.wsi || client.wanted))
    × (after ≡ record client { queue = after.queue; wanted = after.wanted })

-- Given memory and room in the queue, every request adds one frame to the end of the queue, the
-- layout of its command with its payload packed, compressed unless it is Opus audio, reports success,
-- asks for a writable callback where there is a connection, and changes nothing else.
pub perform-Queues :
    (H : Host) (client : Client) (request : Request) (packed : List ℕ) (frames : List (List ℕ))
    → ((n : ℕ) → H.malloc n ≡ true)
    → Holds client.queue frames
    → length frames < Fifo.capacity
    → pack_payload H
        (compression_of H true client request)
        (command_of H true client request).payload
      ≡ ok packed
    → IsCommand (compression_of H true client request) (command_of H true client request) packed
    → Queues (perform H true client request) client (
        frames
        ++ (layout (compression_of H true client request) (command_of H true client request) packed
            ∷ []))
unfolding send_command built Fifo.push
perform-Queues H client request packed frames memory holds room e v =
    let compress : ℕ = compression_of H true client request in
    let c : Command = command_of H true client request in
    let frame : List ℕ = layout compress c packed in
    let (done, holds') = client_send_raw_refines true client.queue frames frame holds in
    (
      record client {
        queue = (client_send_raw true client.queue frame).1;
        wanted = client.wsi || client.wanted;
      },
      perform_lem H true client request
          ∙ rw
              (
                build_command-packed_layout H compress c packed memory e v,
                take_all (length frame) frame (omega arith),
                send_raw-queue H true client frame (done ∙ free),
              )
              refl,
      subst (λ r. Holds (client_send_raw true client.queue frame).1 r.1) pushed holds',
      refl,
      refl,
    )
  where
    frame' : List ℕ
    frame' = layout (compression_of H true client request) (command_of H true client request) packed

    pushed : Fifo.push true frames frame' ≡ (true, frames ++ (frame' ∷ []))
    pushed = ground arith

    free : (Fifo.push true frames frame').0 ≡ true
    free = ap (λ r. r.0) pushed
