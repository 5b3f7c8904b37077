-- ===== src/Core/Detector/Examples.antt =====
-- Runs of the detector at a threshold of 10 over whole numbers, with a prebuffer of 2 blocks and a
-- packet that ends after 4 silent samples.
use netsim.Prelude.{
  ℕ, ◌≡◌, refl, ◌↔◌, true, false, List, [], ◌∷◌, ◌++◌, map, Option, none, some, arith,
}
use netsim.Prelude.Int.{ℤ, pos, negsuc}
use netsim.Prelude.Floats.{int_double}
use netsim.Core.Audio.{AudioBuffer, Marker, tagged, int_succ}
use netsim.Core.CircularBuffer.{CircularBuffer, list_buffer}
use netsim.Core.Detector.{
  Detector, init, drain, flush, begin_packet, idle_in, busy_in, audio_in, buffer_size_change, run,
}
use netsim.Core.Detector.Silence.{DetectorConfig, loud, scan, scan_lem, SilentWithin, silence}
use netsim.Core.Detector.Protocol.{IsReady, between, phase, follow, run-follow}
use netsim.Core.Detector.Order.{blocks, run-sublist}
use netsim.Core.Detector.Warmup.{run_quiet-IsReady, unfilled_start}
use mathlib.Core.List.{Sublist}

abbrev cfg : DetectorConfig ℤ
cfg = record {
  detection_threshold = pos 10;
  packet_end_silent_seconds = pos 1;
  packet_begin_prebuffer_seconds = pos 1;
  sampling_freq = pos 4;
  continuous = false;
}

abbrev cb : CircularBuffer (Option (AudioBuffer ℤ))
cb = list_buffer (Option (AudioBuffer ℤ))

abbrev block : ℕ → List ℤ → AudioBuffer ℤ
block t samples = record { buffer_start_time = pos t; jack_frame_time = t; samples = samples }

abbrev quiet_a : AudioBuffer ℤ
quiet_a = block 0 (pos 1 ∷ negsuc 2 ∷ [])

abbrev quiet_b : AudioBuffer ℤ
quiet_b = block 2 (pos 0 ∷ pos 0 ∷ [])

abbrev loud_a : AudioBuffer ℤ
loud_a = block 4 (pos 2 ∷ negsuc 20 ∷ [])

abbrev loud_b : AudioBuffer ℤ
loud_b = block 6 (pos 30 ∷ pos 1 ∷ [])

abbrev quiet_c : AudioBuffer ℤ
quiet_c = block 8 (pos 0 ∷ pos 1 ∷ pos 0 ∷ pos 0 ∷ [])

-- After `buffer_size_change(2)`.
abbrev started : Detector ℤ (cb.Buf)
started = buffer_size_change cb cfg 2 (init cb)

abbrev warm_state : Detector ℤ (cb.Buf)
warm_state = (run cb cfg (quiet_a ∷ quiet_b ∷ []) started).0

abbrev packet : List (AudioBuffer ℤ)
packet = loud_a ∷ loud_b ∷ quiet_c ∷ quiet_a ∷ []

packet-run :
    (run cb cfg packet warm_state).1
    ≡ tagged (some quiet_b) Marker.start (pos 0)
      ∷ tagged (some loud_a) Marker.none (pos 0)
      ∷ tagged (some loud_b) Marker.middle (pos 0)
      ∷ tagged (some quiet_c) Marker.end (pos 0)
      ∷ []
unfolding run audio_in idle_in busy_in begin_packet flush drain scan loud init buffer_size_change
    int_succ
packet-run = refl

warm_state-IsReady : IsReady cb warm_state
unfolding run audio_in idle_in loud init buffer_size_change
warm_state-IsReady = record {
  room = omega arith;
  filled = (tt, (tt, tt));
  numbered = λ e. cc;
  drained = λ e. cc;
}

run-follow_example :
    let (s', out) = run cb cfg packet warm_state in
    (follow (phase cb warm_state) out ≡ some (phase cb s')) × IsReady cb s'
run-follow_example = run-follow cb cfg packet warm_state refl warm_state-IsReady

run-sublist_example :
    let (s', out) = run cb cfg packet warm_state in
    Sublist
      (blocks out ++ cb.elements s'.prebuffer)
      (cb.elements warm_state.prebuffer ++ map some packet)
run-sublist_example = run-sublist cb cfg packet warm_state refl warm_state-IsReady

-- The count of a packet's silence over a block: it ends at the fourth sample.
scan_lem_example :
    (((scan cfg 0 quiet_c.samples).1 ≡ true) ↔ SilentWithin cfg 0 quiet_c.samples)
    × ((scan cfg 0 quiet_c.samples).1 ≡ true → (scan cfg 0 quiet_c.samples).0 ≡ 0)
    × ((scan cfg 0 quiet_c.samples).1 ≡ false
        → (scan cfg 0 quiet_c.samples).0 ≡ silence cfg 0 quiet_c.samples)
scan_lem_example = scan_lem cfg 0 quiet_c.samples (omega arith)

abbrev continuous_cfg : DetectorConfig ℤ
continuous_cfg = record cfg { continuous = true }

run_quiet-IsReady_example :
    let buffers : List (AudioBuffer ℤ) = quiet_a ∷ quiet_b ∷ [] in
    IsReady cb (run cb cfg buffers started).0 × ((run cb cfg buffers started).1 ≡ [])
unfolding init buffer_size_change loud
run_quiet-IsReady_example =
    run_quiet-IsReady cb cfg (quiet_a ∷ quiet_b ∷ []) started refl refl (omega arith) (omega arith)
      (refl, (refl, tt)) (omega arith)

unfilled_start_example :
    let (s1, out) = audio_in cb cfg loud_a started in
    (out ≡ [])
    × (s1.in_packet ≡ true)
    × (follow (between started.global_packet_id) (audio_in cb cfg loud_b s1).1 ≡ none)
unfolding init buffer_size_change loud
unfilled_start_example =
    unfilled_start cb cfg loud_a loud_b started (some loud_a ∷ []) refl refl refl refl
