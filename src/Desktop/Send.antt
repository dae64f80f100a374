-- ===== src/Desktop/Send.antt =====
-- `client_send_raw` and `send_command` of doubao_c_version/client.c on the whole client.
use esp32s3_box3_doubao.Common.{
  ℕ, Bool, true, false, ◌||◌, List, take, Exec, ok, fail, fault, if◌then◌else◌,
}
use esp32s3_box3_doubao.Desktop.SendQueue.{client_send_raw}
use esp32s3_box3_doubao.Desktop.State.{Client}

-- A frame that is queued asks for a writable callback, once there is a connection.
unfoldable pub send_raw : Bool → Client → List ℕ → Bool × Client
send_raw room client frame =
    let (done, queue') = client_send_raw room client.queue frame in
    if done
    then (true, record client { queue = queue'; wanted = client.wsi || client.wanted })
    else (false, client)

-- `fail` is the null pointer that `build_command` returns.
unfoldable pub send_command : Bool → Client → Exec (List ℕ × ℕ) → Exec (Bool × Client)
send_command room client (ok (buf, msg_len)) = ok (send_raw room client (take msg_len buf))
send_command room client fail = ok (false, client)
send_command room client fault = fault
