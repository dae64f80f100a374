-- ===== src/Opus/Laws.antt =====
-- Which packets are decoded.
use esp32s3_box3_doubao.Common.{
  ℕ, zero, suc, ◌-◌, ◌≤◌, ◌<◌, ◌≡◌, refl, ap, ◌∙◌, Bool, true, false, List, [], ◌∷◌, ◌++◌, drop,
  leb, arith, Bool-cases, inl, inr, ◌⊎◌, ◌≢◌,
}
use esp32s3_box3_doubao.Opus.{
  Codec, Opus, Page, init_stream, select_stream, skip_header, emitted, process_packet,
  process_packets, process_page, process_pages, opus_proc_decode_ogg, opus_proc_reset_ogg,
}

-- The flag and the counter of header packets agree.
pub record Agrees (proc : Opus) : Type 0 where
  pub counted : proc.ogg_header_count ≤ 2
  pub flagged : proc.ogg_headers_parsed ≡ leb 2 proc.ogg_header_count

drop-nil : {A : Type 0} (n : ℕ) → drop {A = A} n [] ≡ []
drop-nil zero = refl
drop-nil (suc n) = refl

drop-cons_pos :
    {A : Type 0} (n : ℕ) (x : A) (xs : List A) → 0 < n → drop n (x ∷ xs) ≡ drop (n - 1) xs
drop-cons_pos zero x xs h = absurd (omega arith)
drop-cons_pos (suc n) x xs h = ap (λ k. drop k xs) (omega arith)

module _ (C : Codec) where
  -- The samples of a list of packets, decoded one after the other.
  abbrev pub decode_all : Bool → List ℕ → List (List ℕ) → List (List ℕ)
  decode_all has_cb decoder [] = []
  decode_all has_cb decoder (packet ∷ packets) =
      emitted has_cb (C.opus_decode decoder packet).0
      ++ decode_all has_cb (C.opus_decode decoder packet).1 packets

  process_packet-Agrees :
      (proc : Opus) (packet : List ℕ) → Agrees proc → Agrees (process_packet C proc packet).0
  unfolding process_packet
  process_packet-Agrees proc packet v = ground arith

  skipped :
      (proc : Opus) (packet : List ℕ)
      → proc.ogg_headers_parsed ≡ false
      → process_packet C proc packet ≡ (skip_header proc, [])
  unfolding process_packet
  skipped proc packet e = rw e

  decoded :
      (proc : Opus) (packet : List ℕ)
      → proc.ogg_headers_parsed ≡ true
      → process_packet C proc packet ≡ (
        record proc { decoder = (C.opus_decode proc.decoder packet).1 },
        emitted proc.has_pcm_cb (C.opus_decode proc.decoder packet).0,
      )
  unfolding process_packet
  decoded proc packet e = rw e

  abbrev Plays : Opus → List (List ℕ) → Type 0
  Plays proc packets =
      (process_packets C proc packets).1
      ≡ decode_all proc.has_pcm_cb proc.decoder (drop (2 - proc.ogg_header_count) packets)

  after_skip :
      (proc : Opus) (packet : List ℕ) (packets : List (List ℕ))
      → Agrees proc
      → proc.ogg_headers_parsed ≡ false
      → Plays (skip_header proc) packets
      → Plays proc (packet ∷ packets)
  unfolding process_packets skip_header
  after_skip proc packet packets v e ih =
      rw
        (
          skipped proc packet e,
          drop-cons_pos (2 - proc.ogg_header_count) packet packets (ground arith),
        )
        (ih ∙ ap (λ n. decode_all proc.has_pcm_cb proc.decoder (drop n packets)) (ground arith))

  after_decode :
      (proc : Opus) (packet : List ℕ) (packets : List (List ℕ))
      → Agrees proc
      → proc.ogg_headers_parsed ≡ true
      → Plays (record proc { decoder = (C.opus_decode proc.decoder packet).1 }) packets
      → Plays proc (packet ∷ packets)
  unfolding process_packets
  after_decode proc packet packets v e ih =
      let none_left : 2 - proc.ogg_header_count ≡ 0 = ground arith in
      rw (decoded proc packet e, none_left)
        (ap (λ l. emitted proc.has_pcm_cb (C.opus_decode proc.decoder packet).0 ++ l)
          (rw none_left at ih))

  -- Exactly the packets that are missing from the two headers are skipped, and all others are
  -- decoded in order.
  pub process_packets-skip :
      (proc : Opus) (packets : List (List ℕ)) → Agrees proc → Plays proc packets
  unfolding process_packets
  process_packets-skip proc [] v = rw (drop-nil {A = List ℕ} (2 - proc.ogg_header_count))
  process_packets-skip proc (packet ∷ packets) v = elim (Bool-cases proc.ogg_headers_parsed) [
    | inl e ↦ after_decode proc packet packets v e (
        process_packets-skip (record proc { decoder = (C.opus_decode proc.decoder packet).1 })
          packets (ground arith))
    | inr e ↦
        after_skip proc packet packets v e
          (process_packets-skip (skip_header proc) packets (unfold skip_header in ground arith))
  ]

  process_packets-Agrees :
      (proc : Opus) (packets : List (List ℕ))
      → Agrees proc
      → Agrees (process_packets C proc packets).0
  unfolding process_packets
  process_packets-Agrees proc [] v = v
  process_packets-Agrees proc (packet ∷ packets) v =
      process_packets-Agrees (process_packet C proc packet).0 packets
        (process_packet-Agrees proc packet v)

  select_stream-Agrees :
      (proc : Opus) (page : Page) → Agrees proc → Agrees (select_stream proc page)
  unfolding select_stream
  select_stream-Agrees proc page v = ground arith

  process_pages-Agrees :
      (proc : Opus) (pages : List Page) → Agrees proc → Agrees (process_pages C proc pages).0
  unfolding process_pages process_page
  process_pages-Agrees proc [] v = v
  process_pages-Agrees proc (page ∷ pages) v =
      process_pages-Agrees (process_page C proc page).0 pages
        (process_packets-Agrees _ _ (ground (arith, select_stream-Agrees proc page v)))

  -- A page that starts a stream: no stream is set up yet, or it is a first page of another stream.
  abbrev pub StartsStream : Opus → Page → Type 0
  StartsStream proc page =
      (proc.ogg_stream_inited ≡ false)
      ⊎ ((proc.ogg_stream_inited ≡ true) × (page.bos ≡ true) × (page.serialno ≢ proc.serialno))

  started :
      (proc : Opus) (page : Page)
      → StartsStream proc page
      → select_stream proc page ≡ init_stream proc page.serialno
  unfolding select_stream
  started proc page h = ground arith

  opus_proc_decode_ogg-Agrees :
      (proc : Opus) (bytes : List ℕ) → Agrees proc → Agrees (opus_proc_decode_ogg C proc bytes).0
  unfolding opus_proc_decode_ogg
  opus_proc_decode_ogg-Agrees proc bytes v = ground (
    arith,
    process_pages-Agrees (record proc { ogg_sync = (C.pageout (proc.ogg_sync ++ bytes)).1 })
        (C.pageout (proc.ogg_sync ++ bytes)).0 (ground arith),
  )

  -- What a series of calls of `opus_proc_decode_ogg` leaves.
  abbrev pub after_all : Opus → List (List ℕ) → Opus
  after_all proc [] = proc
  after_all proc (bytes ∷ rest) = after_all (opus_proc_decode_ogg C proc bytes).0 rest

  after_all-Agrees :
      (proc : Opus) (inputs : List (List ℕ)) → Agrees proc → Agrees (after_all proc inputs)
  after_all-Agrees proc [] v = v
  after_all-Agrees proc (bytes ∷ rest) v =
      after_all-Agrees (opus_proc_decode_ogg C proc bytes).0 rest
        (opus_proc_decode_ogg-Agrees proc bytes v)

  starting-Agrees :
      (proc : Opus) (page : Page) → StartsStream proc page → Agrees (process_page C proc page).0
  unfolding process_page init_stream
  starting-Agrees proc page h = rw (started proc page h) (
      process_packets-Agrees
        (record (init_stream proc page.serialno) {
          ogg_stream = (C.packetout (C.pagein [] page)).1;
        })
        (C.packetout (C.pagein [] page)).0 (ground arith))

  -- What makes the decoder begin afresh: a reset, or a page that starts a stream.
  pub data Beginning (proc : Opus) : Type 0 where
    reset : Beginning proc
    new_stream : (page : Page) → StartsStream proc page → Beginning proc

  abbrev pub begun : (proc : Opus) → Beginning proc → Opus
  begun proc reset = opus_proc_reset_ogg C proc
  begun proc (new_stream page h) = (process_page C proc page).0

  -- Whatever the header flag and the header counter are: a reset, or a page that starts a stream,
  -- brings them into agreement, the flag being set just when two headers have been counted, and never
  -- more than two; and however much is decoded after it, they stay so.
  pub opus_proc_reset_ogg-Agrees :
      (proc : Opus) (start : Beginning proc) (inputs : List (List ℕ))
      → Agrees (after_all (begun proc start) inputs)
  unfolding opus_proc_reset_ogg
  opus_proc_reset_ogg-Agrees proc reset inputs =
      after_all-Agrees (opus_proc_reset_ogg C proc) inputs (ground arith)
  opus_proc_reset_ogg-Agrees proc (new_stream page h) inputs =
      after_all-Agrees (process_page C proc page).0 inputs (starting-Agrees proc page h)

  -- Of the packets of a page that starts a stream, all but the first two are decoded, in order,
  -- whatever the stream before it had come to.
  pub process_page-starts :
      (proc : Opus) (page : Page)
      → StartsStream proc page
      → (process_page C proc page).1
        ≡ decode_all proc.has_pcm_cb proc.decoder (drop 2 (C.packetout (C.pagein [] page)).0)
  unfolding process_page init_stream
  process_page-starts proc page h = rw (started proc page h) (
      process_packets-skip
        (record (init_stream proc page.serialno) {
          ogg_stream = (C.packetout (C.pagein [] page)).1;
        })
        (C.packetout (C.pagein [] page)).0 (ground arith))
