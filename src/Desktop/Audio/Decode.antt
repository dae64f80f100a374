-- ===== src/Desktop/Audio/Decode.antt =====
-- `ogg_buffer_append`, `audio_decode_ogg_opus` and `audio_reset_ogg_state` of
-- doubao_c_version/audio.c. libogg and libopus are those of Opus.
pub mod Device
pub mod Saving
pub mod Agreement
use esp32s3_box3_doubao.Common.{
  ℕ, ◌+◌, Bool, true, false, not, ◌&&◌, ◌||◌, Option, none, some, List, [], ◌∷◌, ◌++◌, length, leb,
  ltb, Exec, ok, fault, ◌>>=◌, ◌==◌, if◌then◌else◌,
}
use esp32s3_box3_doubao.Common.Words.{add_size64, mul_size64}
use esp32s3_box3_doubao.Desktop.Host.{Host}
use esp32s3_box3_doubao.Opus.{Page, Codec}

-- The part of `audio_manager_t` that takes OGG apart. `ogg_buffer` says that the pointer is not NULL,
-- and `ogg_data` is what stands in the buffer.
pub record Manager : Type 0 where
  pub opus_decoder : Bool
  pub decoder : List ℕ
  pub ogg_sync : List ℕ
  pub ogg_stream : List ℕ
  pub serialno : ℕ
  pub ogg_stream_inited : Bool
  pub ogg_headers_parsed : Bool
  pub ogg_header_count : ℕ
  pub ogg_buffer : Bool
  pub ogg_data : List ℕ
  pub ogg_buffer_cap : ℕ

abbrev pub new_capacity : ℕ → ℕ → ℕ
new_capacity cap len =
    let doubled = mul_size64 (add_size64 cap len) 2 in if ltb doubled 65536 then 65536 else doubled

-- `memcpy` to the end of a buffer of `cap` bytes: a fault if it does not fit, or without a buffer.
unfoldable pub put_behind : Manager → Bool → ℕ → List ℕ → Exec Manager
put_behind am buffer cap bytes =
    if not buffer || ltb cap (length am.ogg_data + length bytes)
    then fault
    else ok
        (record am { ogg_buffer = buffer; ogg_data = am.ogg_data ++ bytes; ogg_buffer_cap = cap })

-- Without memory for a larger buffer the bytes are not kept.
unfoldable pub ogg_buffer_append : Host → Manager → List ℕ → Exec Manager
unfolding put_behind
ogg_buffer_append H am bytes =
    if ltb am.ogg_buffer_cap (add_size64 (length am.ogg_data) (length bytes))
    then (if H.realloc (new_capacity am.ogg_buffer_cap (length bytes))
        then put_behind am true (new_capacity am.ogg_buffer_cap (length bytes)) bytes
        else ok am)
    else put_behind am am.ogg_buffer am.ogg_buffer_cap bytes

unfoldable pub stream_init : Manager → ℕ → Manager
stream_init am serial = record am {
  ogg_stream = [];
  serialno = serial;
  ogg_stream_inited = true;
  ogg_headers_parsed = false;
  ogg_header_count = 0;
}

unfoldable pub choose_stream : Manager → Page → Manager
unfolding stream_init
choose_stream am page =
    let started = if not am.ogg_stream_inited then stream_init am page.serialno else am in
    if page.bos && started.ogg_stream_inited && not (page.serialno == started.serialno)
    then stream_init started page.serialno
    else started

unfoldable pub count_header : Manager → Manager
count_header am =
    let count = am.ogg_header_count + 1 in
    record am {
      ogg_header_count = count;
      ogg_headers_parsed = if leb 2 count then true else am.ogg_headers_parsed;
    }

-- What `queue_push` is called with, if anything was decoded: the samples.
abbrev pub pushed : Option (List ℕ) → List (List ℕ)
pushed none = []
pushed (some pcm) = pcm ∷ []

module _ (C : Codec) where
  unfoldable pub take_packet : Manager → List ℕ → Manager × List (List ℕ)
  unfolding count_header
  take_packet am packet =
      let (pcm, decoder') = C.opus_decode am.decoder packet in
      if not am.ogg_headers_parsed
      then (count_header am, [])
      else (record am { decoder = decoder' }, pushed pcm)

  unfoldable pub take_packets : Manager → List (List ℕ) → Manager × List (List ℕ)
  take_packets am [] = (am, [])
  take_packets am (packet ∷ packets) =
      let (am', out) = take_packet am packet in
      let (end, rest) = take_packets am' packets in (end, out ++ rest)

  unfoldable pub take_page : Manager → Page → Manager × List (List ℕ)
  take_page am page =
      let chosen = choose_stream am page in
      let (packets, left) = C.packetout (C.pagein chosen.ogg_stream page) in
      take_packets (record chosen { ogg_stream = left }) packets

  unfoldable pub take_pages : Manager → List Page → Manager × List (List ℕ)
  take_pages am [] = (am, [])
  take_pages am (page ∷ pages) =
      let (am', out) = take_page am page in
      let (end, rest) = take_pages am' pages in (end, out ++ rest)

  -- What follows the saving of the raw bytes.
  unfoldable pub feed : Manager → List ℕ → Manager × List (List ℕ)
  feed am bytes =
      let (pages, left) = C.pageout (am.ogg_sync ++ bytes) in
      if not (C.sync_buffer_ok (length bytes))
      then (am, [])
      else take_pages (record am { ogg_sync = left }) pages

  unfoldable pub audio_decode_ogg_opus : Host → Manager → List ℕ → Exec (Manager × List (List ℕ))
  audio_decode_ogg_opus H am bytes =
      if length bytes == 0
      then ok (am, [])
      else (do saved ← ogg_buffer_append H am bytes; ok (feed saved bytes))

  unfoldable pub audio_reset_ogg_state : Manager → Manager
  audio_reset_ogg_state am = record am {
    ogg_stream_inited = false;
    ogg_sync = [];
    ogg_headers_parsed = false;
    ogg_header_count = 0;
    decoder = if am.opus_decoder then C.opus_reset am.decoder else am.decoder;
  }
