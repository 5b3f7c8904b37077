-- ===== src/Core/Audio.antt =====
-- src/lib/core/common.h: the audio blocks that the threads exchange.
use netsim.Prelude.{ℕ, List, Option, if◌then◌else◌}
use netsim.Prelude.Int.{ℤ, pos, negsuc, ◌+ℤ◌, eqb_ℤ}

pub record AudioBuffer {ℓ} (D : Type ℓ) : Type ℓ where
  pub buffer_start_time : D
  pub jack_frame_time : ℕ
  pub samples : List D

pub data Marker : Type 0 where
  none start end middle : Marker

-- `buffer` is a shared pointer, and `none` the null pointer.
pub record TaggedAudioBuffer {ℓ} (D : Type ℓ) : Type ℓ where
  pub buffer : Option (AudioBuffer D)
  pub marker : Marker
  pub packet_id : ℤ

-- A new `TaggedAudioBuffer` with its buffer, marker and packet id set.
abbrev pub tagged {ℓ} : {D : Type ℓ} → Option (AudioBuffer D) → Marker → ℤ → TaggedAudioBuffer D
tagged b m id = record { buffer = b; marker = m; packet_id = id }

-- `id + 1` on a `std::atomic<int>`, which wraps around.
unfoldable pub int_succ : ℤ → ℤ
int_succ id = if eqb_ℤ id (pos 0x7fff_ffff) then negsuc 0x7fff_ffff else id +ℤ pos 1
