-- ===== src/Core/Jack/Examples.antt =====
-- A thread over whole numbers: buffers of 4 samples, a sampling frequency of 1, and the queue of
-- modem 0 in the middle of a packet.
use netsim.Prelude.{
  ℕ, ◌-◌, ◌≤◌, ◌<◌, ◌≡◌, ◌⊎◌, ◌++◌, refl, true, false, List, [], ◌∷◌, Option, none, some, arith,
  length, replicate, take, drop,
}
use netsim.Prelude.Int.{ℤ, pos, negsuc, to_size}
use netsim.Prelude.Floats.{int_double, of_nat}
use netsim.Prelude.Maps.{lookup, nat_key}
use netsim.Core.Audio.{AudioBuffer, TaggedAudioBuffer, Marker, tagged}
use netsim.Core.Jack.{JackConfig, Output, frame_start, play, play_frames, settle, read_sample, fill}
use netsim.Core.Jack.Thread.{JackThread, Cycle, capture, loops, jack_process}
use netsim.Core.Jack.Playback.{to_play, GoesOn, waiting, play-middle, play-start}
use netsim.Core.Jack.Underflow.{play-late}
use netsim.Core.Jack.Stream.{samples}
use netsim.Core.Jack.{audio_out}
use netsim.Core.Jack.Capture.{capture_lem, Keeps, loops-Keeps}
use netsim.Core.Jack.Safety.{IsSound, jack_process-IsSound}

abbrev cfg : JackConfig ℤ
cfg = record {
  continuous = false;
  fs = 1;
  calibration_seconds = pos 1;
  min_playback_buffer_size = pos 2;
  max_buffer_size = pos 10;
  first_modem_index = 0;
  local_number_of_modems = 1;
}

abbrev block : ℕ → List ℤ → AudioBuffer ℤ
block t xs = record { buffer_start_time = pos t; jack_frame_time = t; samples = xs }

abbrev silence : TaggedAudioBuffer ℤ
silence = tagged (some (block 0 (pos 0 ∷ pos 0 ∷ pos 0 ∷ pos 0 ∷ []))) Marker.none (negsuc 0)

abbrev first : AudioBuffer ℤ
first = block 23 (pos 5 ∷ pos 6 ∷ pos 7 ∷ pos 8 ∷ [])

abbrev last : TaggedAudioBuffer ℤ
last = tagged (some (block 24 (pos 9 ∷ pos 10 ∷ []))) Marker.end (pos 0)

-- A packet that starts 2 frames into the cycle that begins at time 20.
starts :
    play cfg
      (some silence)
      (pos 20)
      4
      (waiting (tagged (some first) Marker.start (pos 0)) (last ∷ []) 0)
    ≡ some (
      record {
        queue = tagged (some first) Marker.start (pos 0) ∷ last ∷ [];
        index = 2;
        new_packet = false;
      },
      some (pos 0 ∷ pos 0 ∷ pos 5 ∷ pos 6 ∷ []),
    )
unfolding play play_frames frame_start fill read_sample settle
starts = refl

play-start_example :
    let t = tagged (some first) Marker.start (pos 0) in
    let lead = frame_start cfg (pos 20) (pos 23) in
    (((4 < lead) ⊎ (2 < to_size (pos 2)))
      × (play cfg (some silence) (pos 20) 4 (waiting t (last ∷ []) 0)
          ≡ some (waiting t (last ∷ []) 0, none)))
    ⊎ ((lead ≤ 4)
        × (to_size (pos 2) ≤ 2)
        × ((o' : Output ℤ) × (play cfg (some silence) (pos 20) 4 (waiting t (last ∷ []) 0)
              ≡ some (
                o',
                some (
                    replicate lead (of_nat 0)
                    ++ take (4 - lead) (to_play silence (waiting t (last ∷ []) 0))),
              ))
            × GoesOn silence o' (drop (4 - lead) (to_play silence (waiting t (last ∷ []) 0)))
            × (o'.new_packet ≡ false)))
play-start_example =
    play-start silence tt cfg (pos 20) 4 first Marker.start (pos 0) (last ∷ []) 0 (tt, tt)
      (omega arith)

-- The block that ends a packet is played from its second sample, and silence after it.
middle : Output ℤ
middle = record { queue = last ∷ []; index = 1; new_packet = false }

play-middle_example :
    (o' : Output ℤ) × (play cfg (some silence) (pos 24) 4 middle
      ≡ some (o', some (take 4 (to_play silence middle))))
    × GoesOn silence o' (drop 4 (to_play silence middle))
    × (o'.new_packet ≡ false)
unfolding middle
play-middle_example = play-middle silence tt cfg (pos 24) 4 last [] 1 (tt, tt) (omega arith)

abbrev started : JackThread ℤ
started = record {
  input_port = true;
  output_port = true ∷ [];
  buffer_size = 4;
  audio_in_buffer = [];
  outputs = [];
  empty_buffer = some silence;
}

abbrev cycle : ℕ → Cycle ℤ
cycle t = record { now = pos t; frame_time = t; captured = pos t ∷ pos 1 ∷ [] }

capture_lem_example :
    capture (cycle 3) started
    ≡ some (record started { audio_in_buffer = block 3 (pos 3 ∷ pos 1 ∷ pos 0 ∷ pos 0 ∷ []) ∷ [] })
capture_lem_example = capture_lem (cycle 3) started

loops-Keeps_example :
    (s' : JackThread ℤ) × (out : List (AudioBuffer ℤ)) × (loops cfg
        ((cycle 1 ∷ []) ∷ (cycle 2 ∷ cycle 3 ∷ []) ∷ [])
        started
      ≡ some (s', out))
    × Keeps started (cycle 1 ∷ cycle 2 ∷ cycle 3 ∷ []) s' out
loops-Keeps_example =
    loops-Keeps cfg ((cycle 1 ∷ []) ∷ (cycle 2 ∷ cycle 3 ∷ []) ∷ []) started refl
      ((omega arith, tt), ((omega arith, (omega arith, tt)), tt)) (omega arith)

started-IsSound : IsSound started
unfolding lookup
started-IsSound = record {
  silence = silence;
  is_set = refl;
  has_block = tt;
  long = omega arith;
  filled = λ i. tt;
}

jack_process-IsSound_example :
    (s' : JackThread ℤ) × (outs : List (Option (List ℤ))) × (jack_process cfg 4 (cycle 5) started
      ≡ some (s', outs))
    × IsSound s'
    × (length outs ≡ 1)
jack_process-IsSound_example =
    jack_process-IsSound cfg (cycle 5) 4 started refl started-IsSound (omega arith) (omega arith)

-- Three samples are left of a cycle's four, so that the late block loses its first one.
play-late_example :
    let q = tagged (some (block 24 (pos 9 ∷ pos 10 ∷ pos 11 ∷ []))) Marker.middle (pos 0) in
    let t = tagged (some first) Marker.middle (pos 0) in
    let o : Output ℤ = record { queue = q ∷ []; index = 0; new_packet = false } in
    (o1 : Output ℤ) × (out : List ℤ) × (o2 : Output ℤ) × (play cfg (some silence) (pos 24) 4 o
      ≡ some (o1, some out))
    × (play cfg (some silence) (pos 28) 4 (audio_out cfg t o1)
        ≡ some (o2, some (take 4 (drop 1 (first.samples) ++ samples silence))))
play-late_example =
    play-late silence tt cfg (pos 24) (pos 28) 4 3 0 0
      (tagged (some (block 24 (pos 9 ∷ pos 10 ∷ pos 11 ∷ []))) Marker.middle (pos 0)) first (pos 0)
      refl tt (omega arith) (omega arith) (omega arith)
