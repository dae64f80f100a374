-- ===== src/Opus.antt =====
-- The OGG/Opus decoder of the device: `opus_processor_t`, `opus_proc_decode_ogg` and
-- `opus_proc_reset_ogg` of main/opus_processor.h and main/opus_processor.c.
pub mod Laws
pub mod Life
use esp32s3_box3_doubao.Common.{
  ℕ, ◌+◌, Bool, true, false, not, ◌&&◌, ◌||◌, Option, none, some, List, [], ◌∷◌, ◌++◌, length, leb,
  ◌==◌, if◌then◌else◌,
}

-- What the code sees of an `ogg_page`.
pub record Page : Type 0 where
  pub serialno : ℕ
  pub bos : Bool
  pub content : List ℕ

-- libogg and libopus. The synchronisation layer and a stream are the bytes that they still hold;
-- `pageout` and `packetout` are the repeated calls of `ogg_sync_pageout` and
-- `ogg_stream_packetout`, up to the first that does not return 1. `opus_decode` gives the decoded
-- samples, if there are any, and the state of the decoder.
pub record Codec : Type 0 where
  pub sync_buffer_ok : ℕ → Bool
  pub pageout : List ℕ → List Page × List ℕ
  pub pagein : List ℕ → Page → List ℕ
  pub packetout : List ℕ → List (List ℕ) × List ℕ
  pub opus_decode : List ℕ → List ℕ → Option (List ℕ) × List ℕ
  pub opus_reset : List ℕ → List ℕ

pub record Opus : Type 0 where
  pub has_decoder : Bool
  pub has_pcm_cb : Bool
  pub decoder : List ℕ
  pub ogg_sync : List ℕ
  pub ogg_stream : List ℕ
  pub serialno : ℕ
  pub ogg_stream_inited : Bool
  pub ogg_headers_parsed : Bool
  pub ogg_header_count : ℕ

unfoldable pub init_stream : Opus → ℕ → Opus
init_stream proc serial = record proc {
  ogg_stream = [];
  serialno = serial;
  ogg_stream_inited = true;
  ogg_headers_parsed = false;
  ogg_header_count = 0;
}

-- A page of a new logical stream starts it afresh.
unfoldable pub select_stream : Opus → Page → Opus
unfolding init_stream
select_stream proc page =
    let started = if not proc.ogg_stream_inited then init_stream proc page.serialno else proc in
    if page.bos && started.ogg_stream_inited && not (page.serialno == started.serialno)
    then init_stream started page.serialno
    else started

-- The first two packets of a stream, OpusHead and OpusTags.
unfoldable pub skip_header : Opus → Opus
skip_header proc =
    let count = proc.ogg_header_count + 1 in
    record proc {
      ogg_header_count = count;
      ogg_headers_parsed = if leb 2 count then true else proc.ogg_headers_parsed;
    }

abbrev pub emitted : Bool → Option (List ℕ) → List (List ℕ)
emitted has_cb none = []
emitted has_cb (some pcm) = if has_cb then pcm ∷ [] else []

module _ (C : Codec) where
  -- One round of the inner loop: the new state, and what `pcm_cb` is called with.
  unfoldable pub process_packet : Opus → List ℕ → Opus × List (List ℕ)
  unfolding skip_header
  process_packet proc packet =
      let (pcm, decoder') = C.opus_decode proc.decoder packet in
      if not proc.ogg_headers_parsed
      then (skip_header proc, [])
      else (record proc { decoder = decoder' }, emitted proc.has_pcm_cb pcm)

  unfoldable pub process_packets : Opus → List (List ℕ) → Opus × List (List ℕ)
  process_packets proc [] = (proc, [])
  process_packets proc (packet ∷ packets) =
      let (proc', out) = process_packet proc packet in
      let (end, rest) = process_packets proc' packets in (end, out ++ rest)

  unfoldable pub process_page : Opus → Page → Opus × List (List ℕ)
  process_page proc page =
      let selected = select_stream proc page in
      let (packets, left) = C.packetout (C.pagein selected.ogg_stream page) in
      process_packets (record selected { ogg_stream = left }) packets

  unfoldable pub process_pages : Opus → List Page → Opus × List (List ℕ)
  process_pages proc [] = (proc, [])
  process_pages proc (page ∷ pages) =
      let (proc', out) = process_page proc page in
      let (end, rest) = process_pages proc' pages in (end, out ++ rest)

  unfoldable pub opus_proc_decode_ogg : Opus → List ℕ → Opus × List (List ℕ)
  opus_proc_decode_ogg proc bytes =
      let (pages, left) = C.pageout (proc.ogg_sync ++ bytes) in
      if length bytes == 0 || not proc.has_decoder || not (C.sync_buffer_ok (length bytes))
      then (proc, [])
      else process_pages (record proc { ogg_sync = left }) pages

  unfoldable pub opus_proc_reset_ogg : Opus → Opus
  opus_proc_reset_ogg proc = record proc {
    ogg_stream_inited = false;
    ogg_sync = [];
    ogg_headers_parsed = false;
    ogg_header_count = 0;
    decoder = if proc.has_decoder then C.opus_reset proc.decoder else proc.decoder;
  }
