-- ===== src/Desktop/Lifecycle/Laws.antt =====
-- A connection attempt of the desktop client, and its end.
use esp32s3_box3_doubao.Common.{
  ℕ, zero, suc, ◌+◌, ◌≡◌, refl, ◌∙◌, Bool, true, false, not, ◌&&◌, Option, List, [], arith, Exec,
  ok, fault, ◌>>=◌, Bool-cases, inl, inr, if◌then◌else◌,
}
use esp32s3_box3_doubao.WsClient.Lifecycle.{Blocks, contains, acquire, release}
use esp32s3_box3_doubao.Desktop.Lifecycle.{
  Owned, nothing, client_init, Service, service_until_connected, service_rounds, client_connect,
  release_all, client_destroy,
}

-- As in `main`: whatever `client_connect` returns, `client_destroy` follows.
abbrev pub attempt : Bool → Bool → Bool → Service → Blocks → Exec (List ℕ)
attempt malloc_ok context_ok wsi_ok service h = do
  let (made, o, h1) = client_init true malloc_ok h
  (connected, o', h2) ← client_connect context_ok wsi_ok service o h1
  (o'', h3) ← client_destroy o' h2
  ok h3.live

-- Waiting changes nothing that is owned.
service_until_connected_keeps :
    (service : Service) (left : ℕ) (o : Owned)
    → let end = service_until_connected service left o in
      (end.context ≡ o.context) × (end.recv_buf ≡ o.recv_buf) × (end.queued ≡ o.queued)
unfolding service_until_connected
service_until_connected_keeps service zero o = (refl, refl, refl)
service_until_connected_keeps service (suc left) o =
    elim (Bool-cases (not o.connected && o.running)) [
      | inl waits ↦ rw waits (
          service_until_connected_keeps service left
            (record o { connected = (service left).0; running = (service left).1 }))
      | inr over ↦ rw over (refl, refl, refl)
    ]

-- What `client_destroy` releases is decided by the three fields it looks at.
client_destroy_lem :
    (o : Owned) (context recv_buf : Option ℕ) (h : Blocks)
    → o.context ≡ context
    → o.recv_buf ≡ recv_buf
    → o.queued ≡ []
    → (client_destroy o h >>= λ r. ok r.1.live)
      ≡ (release context h >>= λ closed. release recv_buf closed >>= λ freed. ok freed.live)
unfolding client_destroy release_all release ◌>>=◌
client_destroy_lem o context recv_buf h c r q = ground arith

-- The receive buffer and the context, taken in this order, are in use.
closed_both :
    (malloc_ok context_ok : Bool) (h : Blocks)
    → let (buf, h1) = acquire malloc_ok h in
      let (context, h2) = acquire context_ok h1 in
      (release context h2 >>= λ closed. release buf closed >>= λ freed. ok freed.live) ≡ ok h.live
unfolding acquire release ◌>>=◌
closed_both true true h = ground arith
closed_both true false h = ground arith
closed_both false true h = ground arith
closed_both false false h = ground arith

-- What `client_init` leaves, with a context or without.
abbrev opened : Bool → Bool → Bool → Blocks → Owned
opened malloc_ok context_ok wsi h =
    let (buf, h1) = acquire malloc_ok h in
    record nothing {
      context = (acquire context_ok h1).0;
      wsi = wsi;
      recv_buf = buf;
      running = true;
    }

wsi_failure :
    (malloc_ok : Bool) (service : Service) (h : Blocks)
    → contains h.live h.next ≡ false
    → contains h.live (h.next + 1) ≡ false
    → attempt malloc_ok true false service h ≡ fault
unfolding client_init client_connect client_destroy acquire release ◌>>=◌
wsi_failure true service h fresh fresh' = ground arith
wsi_failure false service h fresh fresh' = ground arith

-- With a heap that hands out what is not in use: without a context, and with a connection whether it
-- comes about in time or not, all that was taken is given back; with a context and no connection to be
-- had, the failed `client_connect` leaves the address of the destroyed context in the client, and
-- `client_destroy`, with which `main` ends, destroys it a second time.
pub main_attempt_balanced :
    (malloc_ok context_ok wsi_ok : Bool) (service : Service) (h : Blocks)
    → contains h.live h.next ≡ false
    → contains h.live (h.next + 1) ≡ false
    → attempt malloc_ok context_ok wsi_ok service h
      ≡ (if context_ok && not wsi_ok then fault else ok h.live)
unfolding client_init client_connect ◌>>=◌
main_attempt_balanced malloc_ok true true service h fresh fresh' =
    let (c, r, q) =
      service_until_connected_keeps service service_rounds (opened malloc_ok true true h) in
    client_destroy_lem
      (service_until_connected service service_rounds (opened malloc_ok true true h))
      (acquire true (acquire malloc_ok h).1).0 (acquire malloc_ok h).0
      (acquire true (acquire malloc_ok h).1).1 c r q
    ∙ closed_both malloc_ok true h
main_attempt_balanced malloc_ok true false service h fresh fresh' =
    wsi_failure malloc_ok service h fresh fresh'
main_attempt_balanced malloc_ok false w service h fresh fresh' =
    client_destroy_lem (opened malloc_ok false false h) (acquire false (acquire malloc_ok h).1).0
      (acquire malloc_ok h).0 (acquire false (acquire malloc_ok h).1).1 refl refl refl
    ∙ closed_both malloc_ok false h
