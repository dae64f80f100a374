-- ===== src/Desktop/Audio/Decode/Device.antt =====
-- Each step of the desktop's decoder is that of the device.
use esp32s3_box3_doubao.Common.{
  ℕ, ◌≡◌, refl, ap, Bool, true, false, not, Option, none, some, List, [], ◌∷◌, arith, if◌then◌else◌,
}
use esp32s3_box3_doubao.Opus.{
  Page, Codec, Opus, init_stream, select_stream, skip_header, emitted, process_packet,
  process_packets, process_page, process_pages,
}
use esp32s3_box3_doubao.Desktop.Audio.Decode.{
  Manager, stream_init, choose_stream, count_header, pushed, take_packet, take_packets, take_page,
  take_pages,
}

-- The device's decoder in the same state, with its callback set.
abbrev pub device_of : Manager → Opus
device_of am = record {
  has_decoder = am.opus_decoder;
  has_pcm_cb = true;
  decoder = am.decoder;
  ogg_sync = am.ogg_sync;
  ogg_stream = am.ogg_stream;
  serialno = am.serialno;
  ogg_stream_inited = am.ogg_stream_inited;
  ogg_headers_parsed = am.ogg_headers_parsed;
  ogg_header_count = am.ogg_header_count;
}

abbrev pub on_device : Manager × List (List ℕ) → Opus × List (List ℕ)
on_device (am, out) = (device_of am, out)

emitted_lem : (pcm : Option (List ℕ)) → emitted true pcm ≡ pushed pcm
emitted_lem none = refl
emitted_lem (some _) = refl

choose_stream_lem :
    (am : Manager) (page : Page)
    → select_stream (device_of am) page ≡ device_of (choose_stream am page)
unfolding select_stream choose_stream init_stream stream_init
choose_stream_lem am page = ground arith

pub on_device_if :
    (b : Bool) (x y : Manager × List (List ℕ)) {x' y' : Opus × List (List ℕ)}
    → x' ≡ on_device x
    → y' ≡ on_device y
    → (if b then x' else y') ≡ on_device (if b then x else y)
on_device_if true x y p q = p
on_device_if false x y p q = q

module _ (C : Codec) where
  take_packet_lem :
      (am : Manager) (packet : List ℕ)
      → process_packet C (device_of am) packet ≡ on_device (take_packet C am packet)
  unfolding process_packet take_packet skip_header count_header
  take_packet_lem am packet =
      on_device_if (not am.ogg_headers_parsed) (count_header am, [])
        (
          record am { decoder = (C.opus_decode am.decoder packet).1 },
          pushed (C.opus_decode am.decoder packet).0,
        )
        refl
        (ap (λ out. (record (device_of am) { decoder = (C.opus_decode am.decoder packet).1 }, out))
          (emitted_lem (C.opus_decode am.decoder packet).0))

  take_packets_lem :
      (am : Manager) (packets : List (List ℕ))
      → process_packets C (device_of am) packets ≡ on_device (take_packets C am packets)
  unfolding process_packets take_packets
  take_packets_lem am [] = refl
  take_packets_lem am (packet ∷ packets) =
      rw (take_packet_lem am packet, take_packets_lem (take_packet C am packet).0 packets) refl

  take_page_lem :
      (am : Manager) (page : Page)
      → process_page C (device_of am) page ≡ on_device (take_page C am page)
  unfolding process_page take_page
  take_page_lem am page =
      let chosen : Manager = choose_stream am page in
      let (packets, left) = C.packetout (C.pagein chosen.ogg_stream page) in
      rw (choose_stream_lem am page)
        (take_packets_lem (record chosen { ogg_stream = left }) packets)

  pub take_pages_lem :
      (am : Manager) (pages : List Page)
      → process_pages C (device_of am) pages ≡ on_device (take_pages C am pages)
  unfolding process_pages take_pages
  take_pages_lem am [] = refl
  take_pages_lem am (page ∷ pages) =
      rw (take_page_lem am page, take_pages_lem (take_page C am page).0 pages) refl
