-- ===== src/Core/Jack.antt =====
-- src/apps/netsim_core/jack_thread.h: `JackThread`, between the sound card and the other threads.
-- `none` is a fault: a null pointer or a vector read or written out of bounds, or a pop from an
-- empty deque. What the callback leaves of a port's buffer is `none` where it writes nothing to it.
pub mod Thread
pub mod Stream
pub mod Filling
pub mod Playback
pub mod Capture
pub mod Ports
pub mod Safety
pub mod Underflow
pub mod Setup
mod Examples
use netsim.Prelude.{
  ℕ, zero, suc, ◌+◌, ◌-◌, ◌≡◌, Bool, true, false, List, [], ◌∷◌, ◌++◌, Option, none, some, length,
  get_elem?, replicate, ltb, leb, ◌==◌, if◌then◌else◌,
}
use netsim.Prelude.Int.{ℤ, to_size}
use netsim.Prelude.Floats.{Double, of_nat}
use netsim.Prelude.Maps.{Map, lookup, assign, nat_key}
use netsim.Core.Audio.{AudioBuffer, TaggedAudioBuffer, Marker}

pub record JackConfig {ℓ} (D : Type ℓ) : Type ℓ where
  pub continuous : Bool
  pub fs : ℕ
  pub calibration_seconds : D
  pub min_playback_buffer_size : ℤ
  pub max_buffer_size : ℤ
  pub first_modem_index : ℕ
  pub local_number_of_modems : ℕ

-- The entries of `audio_out_buffer_`, `audio_out_index_` and `new_packet_` for one modem.
pub record Output {ℓ} (D : Type ℓ) : Type ℓ where
  pub queue : List (TaggedAudioBuffer D)
  pub index : ℕ
  pub new_packet : Bool

-- Where the callback stands in a port's queue: the block that it reads, the next sample, the queue.
pub record Cursor {ℓ} (D : Type ℓ) : Type ℓ where
  pub tx : TaggedAudioBuffer D
  pub index : ℕ
  pub queue : List (TaggedAudioBuffer D)

module _ {ℓ} {D : Type ℓ} where
  abbrev pub samples_of : TaggedAudioBuffer D → Option (List D)
  samples_of t = elim t.buffer [ none ↦ none | some b ↦ some b.samples ]

  -- The block to read after a pop.
  abbrev pub front :
      Option (TaggedAudioBuffer D) → List (TaggedAudioBuffer D) → Option (TaggedAudioBuffer D)
  front empty [] = empty
  front empty (t ∷ _) = some t

  -- The `while` loop that goes on to a block which has the sample.
  unfoldable pub settle :
      Option (TaggedAudioBuffer D)
      → TaggedAudioBuffer D
      → ℕ
      → List (TaggedAudioBuffer D)
      → Option (Cursor D)
  settle empty tx index [] = elim (samples_of tx) [
    | none ↦ none
    | some xs ↦
        if ltb index (length xs) then some (record { tx = tx; index = index; queue = [] }) else none
  ]
  settle empty tx index (q ∷ rest) = elim (samples_of tx) [
    | none ↦ none
    | some xs ↦
        let next : Option (Cursor D) = elim (front empty rest) [
          | none ↦ none
          | some t ↦ settle empty t 0 rest
        ] in
        if ltb index (length xs)
        then some (record { tx = tx; index = index; queue = q ∷ rest })
        else next
  ]

  -- `*(sample++) = tx_buffer->buffer->samples[audio_out_index++]`
  unfoldable pub read_sample : Option (TaggedAudioBuffer D) → Cursor D → Option (D × Cursor D)
  read_sample empty c = elim (settle empty c.tx c.index c.queue) [
    | none ↦ none
    | some c' ↦ elim (samples_of c'.tx) [
      | none ↦ none
      | some xs ↦ elim (get_elem? xs c'.index) [
        | none ↦ none
        | some x ↦ some (x, record c' { index = c'.index + 1 })
      ]
    ]
  ]

  -- The loop over the frames that are left, of which the first `lead` stand before the start.
  unfoldable pub fill :
      D → Option (TaggedAudioBuffer D) → ℕ → ℕ → Cursor D → Option (List D × Cursor D)
  fill nought empty zero lead c = some ([], c)
  fill nought empty (suc n) (suc lead) c = elim (fill nought empty n lead c) [
    | none ↦ none
    | some (out, c') ↦ some (nought ∷ out, c')
  ]
  fill nought empty (suc n) zero c = elim (read_sample empty c) [
    | none ↦ none
    | some (x, c') ↦ elim (fill nought empty n zero c') [
      | none ↦ none
      | some (out, c'') ↦ some (x ∷ out, c'')
    ]
  ]

module _ {ℓ} {D : Type ℓ} ⦃d : Double D⦄ where
  -- When the playback of a new packet begins in this cycle; `now` is the cycle's start.
  unfoldable pub frame_start : JackConfig D → D → D → ℕ
  frame_start cfg now start =
      if d.lt now start
      then d.to_uint32 (d.mul (d.sub (d.sub start now) cfg.calibration_seconds) (of_nat cfg.fs))
      else 0

  -- The frames of a port whose queue begins with `tx`.
  unfoldable pub play_frames :
      Option (TaggedAudioBuffer D)
      → ℕ
      → ℕ
      → TaggedAudioBuffer D
      → Output D
      → Option (Output D × Option (List D))
  play_frames empty nframes lead tx o =
      elim (fill (of_nat 0) empty nframes lead
        (record { tx = tx; index = o.index; queue = o.queue })) [
          | none ↦ none
          | some (out, c) ↦ some (record o { index = c.index; queue = c.queue }, some out)
        ]

  -- One port in the discrete mode.
  unfoldable pub play :
      JackConfig D
      → Option (TaggedAudioBuffer D)
      → D
      → ℕ
      → Output D
      → Option (Output D × Option (List D))
  play cfg empty now nframes o = elim o.queue [
    | [] ↦ some (o, none)
    | tx ∷ _ ↦
        if o.new_packet
        then elim tx.buffer [
          | none ↦ none
          | some block ↦
              let lead = frame_start cfg now block.buffer_start_time in
              let waiting : Output D = record o { index = 0 } in
              if ltb nframes lead
              then some (waiting, none)
              else if ltb (length o.queue) (to_size cfg.min_playback_buffer_size)
              then some (waiting, none)
              else play_frames empty nframes lead tx (record o { index = 0; new_packet = false })
        ]
        else play_frames empty nframes 0 tx o
  ]

module _ {ℓ} {D : Type ℓ} where
  -- One port in the continuous mode: copy `nframes` samples of the block that is kept.
  unfoldable pub copy_frames : ℕ → List D → Option (List D)
  copy_frames zero xs = some []
  copy_frames (suc n) [] = none
  copy_frames (suc n) (x ∷ xs) = elim (copy_frames n xs) [ none ↦ none | some out ↦ some (x ∷ out) ]

  unfoldable pub play_continuous : ℕ → Output D → Option (Output D × Option (List D))
  play_continuous nframes o = elim o.queue [
    | [] ↦ some (o, none)
    | tx ∷ _ ↦ elim (samples_of tx) [
      | none ↦ none
      | some xs ↦ elim (copy_frames nframes xs) [ none ↦ none | some out ↦ some (o, some out) ]
    ]
  ]

  -- `audio_out`: a buffer that a processor made for the modem.
  unfoldable pub audio_out : JackConfig D → TaggedAudioBuffer D → Output D → Output D
  audio_out cfg t o = if cfg.continuous then record o { queue = t ∷ [] } else elim t.marker [
    | Marker.start ↦ record o { queue = t ∷ []; new_packet = true }
    | _ ↦ record o { queue = o.queue ++ t ∷ [] }
  ]
