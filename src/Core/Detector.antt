-- ===== src/Core/Detector.antt =====
-- src/apps/netsim_core/detector.h: `DetectorThread`, which cuts one modem's input into packets.
-- A handler returns the new state and what it published on `DetectorAudio<from_index>`, in order.
pub mod Silence
pub mod Prebuffer
pub mod Protocol
pub mod Order
pub mod Continuous
pub mod Warmup
mod Examples
use netsim.Prelude.{
  ℕ, zero, suc, ◌+◌, ◌%◌, ◌^◌, ◌<◌, Bool, true, false, not, ◌&&◌, ◌||◌, List, [], ◌∷◌, ◌++◌, Option,
  none, some, length, any, if◌then◌else◌, ltb,
}
use netsim.Prelude.Int.{ℤ, pos, negsuc, pos_part}
use netsim.Prelude.Floats.{Double, of_nat}
use netsim.Core.Audio.{AudioBuffer, TaggedAudioBuffer, Marker, tagged, int_succ}
use netsim.Core.CircularBuffer.{CircularBuffer}
use Silence.{DetectorConfig, loud, scan}

-- `global_packet_id` is the counter that `audio_in` declares `static`. It stands in a member of a
-- class template, so each `DetectorThread<from_index>` has one of its own.
pub record Detector {ℓ} (D : Type ℓ) (Buf : Type ℓ) : Type ℓ where
  pub in_packet : Bool
  pub in_packet_id : ℤ
  pub in_packet_start_time : D
  pub frames_since_silence : ℕ
  pub prebuffer : Buf
  pub global_packet_id : ℤ

module _ {ℓ} {D : Type ℓ} ⦃d : Double D⦄ (cb : CircularBuffer (Option (AudioBuffer D))) where
  open cb use {Buf, with_capacity, push_back, pop_front, resize, elements}

  unfoldable pub init : Detector D Buf
  init = record {
    in_packet = false;
    in_packet_id = negsuc 0;
    in_packet_start_time = of_nat 0;
    frames_since_silence = 0;
    prebuffer = with_capacity 1;
    global_packet_id = pos 0;
  }

  -- The loop that publishes and pops until the prebuffer is empty; the fuel is its size.
  unfoldable pub drain : ℕ → ℤ → Buf → List (TaggedAudioBuffer D) × Buf
  drain zero id b = ([], b)
  drain (suc fuel) id b = elim (elements b) [
    | [] ↦ ([], b)
    | first ∷ _ ↦
        let (out, b') = drain fuel id (pop_front b) in (tagged first Marker.none id ∷ out, b')
  ]

  -- The start of a packet in the discrete mode: publish the prebuffer from its front. A null front,
  -- which is a place that `resize` made and no block has filled yet, breaks out of the loop.
  unfoldable pub flush : Detector D Buf → Detector D Buf × List (TaggedAudioBuffer D)
  flush s = elim (elements s.prebuffer) [
    | [] ↦ (s, [])
    | none ∷ _ ↦ (s, [])
    | some first ∷ rest ↦
        let (out, b) = drain (length rest) s.in_packet_id (pop_front s.prebuffer) in
        (record s { prebuffer = b }, tagged (some first) Marker.start s.in_packet_id ∷ out)
  ]

  unfoldable pub begin_packet :
      DetectorConfig D
      → AudioBuffer D
      → Detector D Buf
      → Detector D Buf × List (TaggedAudioBuffer D)
  begin_packet cfg buffer s =
      let id = s.global_packet_id in
      let s' : Detector D Buf = record s {
        in_packet = true;
        in_packet_id = id;
        global_packet_id = int_succ id;
        in_packet_start_time = buffer.buffer_start_time;
      } in
      if cfg.continuous then (s', tagged (some buffer) Marker.start id ∷ []) else flush s'

  -- `audio_in` while no packet is in progress.
  unfoldable pub idle_in :
      DetectorConfig D
      → AudioBuffer D
      → Detector D Buf
      → Detector D Buf × List (TaggedAudioBuffer D)
  idle_in cfg buffer s =
      let s1 : Detector D Buf = record s { prebuffer = push_back (some buffer) s.prebuffer } in
      let (s2, out) =
        if any (loud cfg) buffer.samples then begin_packet cfg buffer s1 else (s1, []) in
      if cfg.continuous && not s2.in_packet
      then (s2, out ++ tagged (some buffer) Marker.none s2.in_packet_id ∷ [])
      else (s2, out)

  -- `audio_in` during a packet.
  unfoldable pub busy_in :
      DetectorConfig D
      → AudioBuffer D
      → Detector D Buf
      → Detector D Buf × List (TaggedAudioBuffer D)
  busy_in cfg buffer s =
      let (frames, ended) = scan cfg s.frames_since_silence buffer.samples in
      let s' : Detector D Buf = record s { in_packet = not ended; frames_since_silence = frames } in
      let last = if ended then tagged (some buffer) Marker.end s.in_packet_id ∷ [] else [] in
      let marker = if not ended then Marker.middle else Marker.none in
      let whole =
        if not ended || cfg.continuous
        then tagged (some buffer) marker s.in_packet_id ∷ []
        else [] in
      (s', last ++ whole)

  unfoldable pub audio_in :
      DetectorConfig D
      → AudioBuffer D
      → Detector D Buf
      → Detector D Buf × List (TaggedAudioBuffer D)
  audio_in cfg buffer s = if s.in_packet then busy_in cfg buffer s else idle_in cfg buffer s

  -- The subscription to `buffer_size_change`. The quotient is converted to `size_t`.
  unfoldable pub buffer_size_change : DetectorConfig D → ℕ → Detector D Buf → Detector D Buf
  buffer_size_change cfg buffer_size s =
      let seconds = cfg.packet_begin_prebuffer_seconds in
      let size =
        pos_part
          (d.trunc (d.div (d.mul (d.of_int cfg.sampling_freq) seconds) (of_nat buffer_size))) in
      record s { prebuffer = resize (if ltb 0 size then size else 1) none s.prebuffer }

  -- A run of the thread over the blocks that arrive.
  unfoldable pub run :
      DetectorConfig D
      → List (AudioBuffer D)
      → Detector D Buf
      → Detector D Buf × List (TaggedAudioBuffer D)
  run cfg [] s = (s, [])
  run cfg (buffer ∷ buffers) s =
      let (s1, out) = audio_in cfg buffer s in
      let (s2, rest) = run cfg buffers s1 in (s2, out ++ rest)
