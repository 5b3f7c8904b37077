-- ===== src/Core/Detector/Continuous.antt =====
-- src/apps/netsim_core/detector.h: what a detector publishes in the continuous mode.
use netsim.Prelude.{◌≡◌, true, ◌&&◌, [], ◌∷◌, Option, some, arith, if◌then◌else◌}
use netsim.Prelude.Floats.{Double}
use netsim.Core.Audio.{AudioBuffer}
use netsim.Core.CircularBuffer.{CircularBuffer}
use netsim.Core.Detector.{Detector, begin_packet, idle_in, busy_in, audio_in}
use netsim.Core.Detector.Silence.{DetectorConfig, scan}
use netsim.Core.Detector.Order.{blocks}

module _ {ℓ} {D : Type ℓ} ⦃d : Double D⦄ (cb : CircularBuffer (Option (AudioBuffer D))) where
  open cb use {Buf}

  -- In the continuous mode every block is published as it arrives, once; but a block in which a
  -- packet ends is published twice.
  audio_in-blocks :
      (cfg : DetectorConfig D) (buffer : AudioBuffer D) (s : Detector D Buf)
      → cfg.continuous ≡ true
      → blocks (audio_in cb cfg buffer s).1 ≡ (
          if s.in_packet && (scan cfg s.frames_since_silence buffer.samples).1
          then some buffer ∷ some buffer ∷ []
          else some buffer ∷ [])
  unfolding audio_in busy_in idle_in begin_packet blocks
  audio_in-blocks cfg buffer s continuous = ground arith
