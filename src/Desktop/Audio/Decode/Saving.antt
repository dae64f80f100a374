-- ===== src/Desktop/Audio/Decode/Saving.antt =====
-- The raw audio that is saved.
use esp32s3_box3_doubao.Common.{
  ℕ, ◌+◌, ◌^◌, ◌≤◌, ◌<◌, ◌≡◌, refl, Bool, true, false, List, ◌++◌, length, length-append, ltb,
  arith, Exec, ok, Bool-cases, inl, inr,
}
use esp32s3_box3_doubao.Common.Words.{add_size64}
use esp32s3_box3_doubao.Desktop.Host.{Host}
use esp32s3_box3_doubao.Desktop.Audio.Decode.{Manager, new_capacity, put_behind, ogg_buffer_append}
use esp32s3_box3_doubao.Desktop.Audio.Decode.Device.{device_of}

abbrev pub small_cap : ℕ
small_cap = 2 ^ 60

-- What has been saved fits the buffer, and there is one as soon as anything has been.
pub record IsSaving (am : Manager) : Type 0 where
  pub small : am.ogg_buffer_cap < small_cap
  pub fits : length am.ogg_data ≤ am.ogg_buffer_cap
  pub there : 0 < am.ogg_buffer_cap → am.ogg_buffer ≡ true

abbrev appended : Manager → ℕ → List ℕ → Manager
appended am cap bytes = record am {
  ogg_buffer = true;
  ogg_data = am.ogg_data ++ bytes;
  ogg_buffer_cap = cap;
}

put_behind_lem :
    (am : Manager) (buffer : Bool) (cap : ℕ) (bytes : List ℕ)
    → buffer ≡ true
    → length am.ogg_data + length bytes ≤ cap
    → put_behind am buffer cap bytes ≡ ok (appended am cap bytes)
unfolding put_behind
put_behind_lem am true cap bytes there fits = ground arith
put_behind_lem am false cap bytes there fits = absurd cc

appended-IsSaving :
    (am : Manager) (cap : ℕ) (bytes : List ℕ)
    → length am.ogg_data + length bytes ≤ cap
    → cap < small_cap
    → IsSaving (appended am cap bytes)
appended-IsSaving am cap bytes fits small = record {
  small = small;
  fits = omega (arith, length-append am.ogg_data bytes);
  there = λ _. refl;
}

-- Memory or not, nothing is written outside the buffer, and the decoder's part of the state is left
-- alone.
abbrev pub Saves : Exec Manager → Manager → Type 0
Saves r am = (saved : Manager) × (r ≡ ok saved) × (device_of saved ≡ device_of am) × IsSaving saved

pub ogg_buffer_append-Saves :
    (H : Host) (am : Manager) (bytes : List ℕ)
    → IsSaving am
    → ((n : ℕ) → H.realloc n ≡ true → n < small_cap)
    → 0 < length bytes
    → length bytes < small_cap
    → Saves (ogg_buffer_append H am bytes) am
unfolding ogg_buffer_append
ogg_buffer_append-Saves H am bytes v limit some_bytes short =
    let needed : ℕ = add_size64 (length am.ogg_data) (length bytes) in
    let cap : ℕ = new_capacity am.ogg_buffer_cap (length bytes) in
    elim (Bool-cases (ltb am.ogg_buffer_cap needed)) [
      | inl grows ↦ elim (Bool-cases (H.realloc cap)) [
        | inl room ↦
            let fits : length am.ogg_data + length bytes ≤ cap = ground (arith, v.fits, v.small) in
            (
              appended am cap bytes,
              rw (grows, room) (put_behind_lem am true cap bytes refl fits),
              refl,
              appended-IsSaving am cap bytes fits (limit cap room),
            )
        | inr short_of_memory ↦ (am, rw (grows, short_of_memory) refl, refl, v)
      ]
      | inr stays ↦
          let fits : length am.ogg_data + length bytes ≤ am.ogg_buffer_cap =
            ground (arith, v.fits, v.small) in
          (
            appended am am.ogg_buffer_cap bytes,
            rw stays (
                put_behind_lem am am.ogg_buffer am.ogg_buffer_cap bytes (v.there (omega arith))
                  fits),
            refl,
            appended-IsSaving am am.ogg_buffer_cap bytes fits v.small,
          )
    ]
