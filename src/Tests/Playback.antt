-- ===== src/Tests/Playback.antt =====
-- The theorems on the playback of the desktop client at concrete inputs.
use esp32s3_box3_doubao.Common.{
  ap, ◌==◌, ◌≡◌, refl, inl, inr, true, false, none, some, List, [], ◌∷◌, arith, ok, Bool-cases,
  if◌then◌else◌,
}
use esp32s3_box3_doubao.Desktop.Audio.Queue.{Nodes, Op, push, pop, play, clear}
use esp32s3_box3_doubao.Desktop.Audio.Queue.Sound.{Config, state_of, view_of, IsSound}
use esp32s3_box3_doubao.Desktop.Audio.Queue.Refine
use esp32s3_box3_doubao.Desktop.Audio.Queue.Refine.{ideal_run, IsFreshRun, run_plays}
use esp32s3_box3_doubao.Desktop.Audio.Decode.Device.{device_of}
use esp32s3_box3_doubao.Desktop.Audio.Decode.Agreement.{
  Input, audio, reset, run_desktop, run_device, Plays, run_desktop-Plays,
}
use esp32s3_box3_doubao.Desktop.Audio.Streams.Laws.{OpenEnv, opened_life, opened_life_lem}
use esp32s3_box3_doubao.Tests.Fixtures.{
  paging_codec, small_blocks, fresh_manager, fresh_manager-IsSaving, heap,
}

-- One chunk is queued at address 1 and another is being played at address 2.
abbrev two_nodes : Nodes
two_nodes a =
    if a == 1
    then some (record { bytes = 7 ∷ []; next = none })
    else if a == 2
    then some (record { bytes = 6 ∷ []; next = some 1 })
    else none

abbrev playing_two : Config
playing_two = record {
  stream = true;
  nodes = two_nodes;
  playing = some 2;
  current = some (6 ∷ []);
  entries = (1, 7 ∷ []) ∷ [];
}

playing_two-IsSound : IsSound playing_two
playing_two-IsSound = record {
  linked = (refl, tt, tt);
  held = ((some 1, refl), (refl, tt));
  no_leak = λ a (apart, _) other. elim (Bool-cases (a == 2)) [
    | inl two ↦ absurd (other (ap some (ground arith)))
    | inr differs ↦ ground arith
  ];
}

abbrev some_steps : List Op
some_steps = push (some 3) (8 ∷ []) ∷ play ∷ clear ∷ pop ∷ []

some_steps-IsFreshRun : IsFreshRun some_steps (state_of playing_two)
some_steps-IsFreshRun =
    (refl, λ out s e. (tt, λ out' s' e'. (tt, λ out2 s2 e2. (tt, λ out3 s3 e3. tt))))

run_plays_example :
    (g : Config) × (Refine.run some_steps (state_of playing_two)
      ≡ ok (ideal_run some_steps (view_of playing_two), state_of g))
    × IsSound g
run_plays_example = run_plays some_steps playing_two some_steps-IsFreshRun playing_two-IsSound

abbrev three_inputs : List Input
three_inputs = audio (79 ∷ 103 ∷ []) ∷ reset ∷ audio (79 ∷ []) ∷ []

run_desktop-Plays_example :
    Plays
      (run_desktop paging_codec small_blocks fresh_manager three_inputs)
      (run_device paging_codec (device_of fresh_manager) three_inputs)
run_desktop-Plays_example =
    run_desktop-Plays paging_codec small_blocks fresh_manager three_inputs (λ n e. ground arith)
      refl fresh_manager-IsSaving (omega arith, (omega arith, tt))

abbrev no_microphone : OpenEnv
no_microphone = record {
  encoder_ok = true;
  decoder_ok = true;
  portaudio_ok = true;
  output_open = true;
  output_start = true;
  thread_ok = true;
  input_open = true;
  input_start = false;
}

opened_life_lem_example : opened_life no_microphone heap ≡ ok heap.live
opened_life_lem_example = opened_life_lem no_microphone heap
