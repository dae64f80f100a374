-- ===== src/Desktop/Gzip/Total.antt =====
-- The loop of `gzip_decompress` ends, with all that the stream holds.
use esp32s3_box3_doubao.Common.{
  ℕ, zero, suc, ◌+◌, ◌-◌, ◌*◌, ◌^◌, ◌≤◌, ◌<◌, ◌≡◌, refl, ap, ◌∙◌, ◌⊎◌, inl, inr, true, List, [],
  ◌++◌, append_assoc, length, length-take, length-drop, take, take_all, drop, take-append-drop,
  arith, ok, ◌>>=◌, ◌==◌,
}
use esp32s3_box3_doubao.Common.Words.{u32, mul_size64}
use esp32s3_box3_doubao.Desktop.Host.{Host, stream_end, okay}
use esp32s3_box3_doubao.Desktop.Gzip.{inflate_loop, first_size, gzip_decompress}

-- zlib, on the states of a sound stream, which `sound` tells from all others: with `remaining strm`
-- still to come, a call either writes all of it and reports the end, or fills the space that it is
-- given and leaves a state of the same stream. Nothing is said of any other state.
pub record Inflates (H : Host) (sound : List ℕ → Type 0) (remaining : List ℕ → List ℕ)
    : Type 0 where
  pub inflate_step :
      (strm : List ℕ) (n : ℕ)
      → sound strm
      → 0 < n
      → ((H.inflate strm n).ret ≡ stream_end) × ((H.inflate strm n).out ≡ remaining strm)
        ⊎ (((H.inflate strm n).ret ≡ okay)
            × ((H.inflate strm n).out ≡ take n (remaining strm))
            × (n ≤ length (remaining strm))
            × (remaining (H.inflate strm n).strm ≡ drop n (remaining strm))
            × sound (H.inflate strm n).strm)

module _ (H : Host) (fuel : ℕ) (strm out : List ℕ) (avail_out buf_size : ℕ) where
  loop_ends :
      (H.inflate strm avail_out).ret ≡ stream_end
      → inflate_loop H (suc fuel) strm out avail_out buf_size
        ≡ ok (out ++ (H.inflate strm avail_out).out)
  unfolding inflate_loop
  loop_ends e = rw (inflate_loop, e)

  loop_grows :
      (H.inflate strm avail_out).ret ≡ okay
      → length (H.inflate strm avail_out).out ≡ avail_out
      → H.realloc (buf_size * 2) ≡ true
      → buf_size * 2 < 2 ^ 32
      → inflate_loop H (suc fuel) strm out avail_out buf_size
        ≡ inflate_loop H fuel
            (H.inflate strm avail_out).strm
            (out ++ (H.inflate strm avail_out).out)
            buf_size
            (buf_size * 2)
  unfolding inflate_loop
  loop_grows e full room small =
      let filled : (avail_out - length (H.inflate strm avail_out).out == 0) ≡ true = ground arith in
      let doubled : mul_size64 buf_size 2 ≡ buf_size * 2 = omega arith in
      let added : u32 (buf_size * 2 - buf_size) ≡ buf_size = omega arith in
      rw (inflate_loop, e, filled, doubled, added, room)

module _ (H : Host) (sound : List ℕ → Type 0) (remaining : List ℕ → List ℕ)
    (z : Inflates H sound remaining) (room : (n : ℕ) → H.realloc n ≡ true) where
  inflate_loop_total :
      (fuel : ℕ) (strm out : List ℕ) (avail_out buf_size : ℕ)
      → sound strm
      → 0 < avail_out
      → buf_size ≤ 2 * avail_out
      → avail_out ≤ buf_size
      → buf_size + 2 * length (remaining strm) < 2 ^ 32
      → length (remaining strm) < fuel
      → inflate_loop H fuel strm out avail_out buf_size ≡ ok (out ++ remaining strm)
  inflate_loop_total zero strm out avail_out buf_size good pos half fits small enough =
      absurd (omega arith)
  inflate_loop_total (suc fuel) strm out avail_out buf_size good pos half fits small enough =
      elim (z.inflate_step strm avail_out good pos) [
        | inl (ends, all) ↦
            loop_ends H fuel strm out avail_out buf_size ends ∙ ap (λ l. ok (out ++ l)) all
        | inr (more, part, full, rest, good_rest) ↦
            let measured : length (H.inflate strm avail_out).out ≡ avail_out =
              ap length part ∙ omega (arith, length-take {0} avail_out (remaining strm)) in
            let fewer : length (remaining (H.inflate strm avail_out).strm) + avail_out
                ≡ length (remaining strm) =
              omega (arith, ap length rest, length-drop {0} avail_out (remaining strm)) in
            loop_grows H fuel strm out avail_out buf_size more measured (room (buf_size * 2))
              (omega arith)
            ∙ inflate_loop_total fuel (H.inflate strm avail_out).strm
                (out ++ (H.inflate strm avail_out).out) buf_size (buf_size * 2) good_rest
                (omega arith) (omega arith) (omega arith) (omega arith) (omega arith)
            ∙ ap ok (
                append_assoc out (H.inflate strm avail_out).out
                  (remaining (H.inflate strm avail_out).strm)
                ∙ rw (part, rest)
                    (ap (λ l. out ++ l) (take-append-drop avail_out (remaining strm))))
      ]

-- Given memory, and a sound stream, of fewer than 2 ^ 28 bytes, that holds fewer than 2 ^ 30: the loop
-- of `gzip_decompress` ends within one round more than there are bytes to come, doubling its buffer as
-- often as it must, and returns them all. Of streams that are not sound nothing is said.
pub gzip_decompress_total :
    (H : Host) (sound : List ℕ → Type 0) (remaining : List ℕ → List ℕ) (bytes : List ℕ) (fuel : ℕ)
    → Inflates H sound remaining
    → sound (H.start bytes)
    → ((n : ℕ) → H.malloc n ≡ true)
    → ((n : ℕ) → H.realloc n ≡ true)
    → H.inflate_init_ok ≡ true
    → length bytes < 2 ^ 28
    → length (remaining (H.start bytes)) < 2 ^ 30
    → length (remaining (H.start bytes)) < fuel
    → gzip_decompress H fuel bytes ≡ ok (remaining (H.start bytes))
unfolding gzip_decompress ◌>>=◌
gzip_decompress_total H sound remaining bytes fuel z good room more_room ready short few enough =
    rw
      (
        whole_input,
        room (first_size (length bytes)),
        whole,
        inflate_loop_total H sound remaining z more_room fuel (H.start bytes) []
            (first_size (length bytes)) (first_size (length bytes)) good (ground arith)
            (ground arith) (ground arith) (ground arith) enough,
        ready,
      )
      refl
  where
    whole_input : take (u32 (length bytes)) bytes ≡ bytes
    whole_input =
        let same : u32 (length bytes) ≡ length bytes = omega arith in
        rw same (take_all (length bytes) bytes (omega arith))

    whole : u32 (first_size (length bytes)) ≡ first_size (length bytes)
    whole = ground arith
