-- ===== src/Core/Logger/Examples.antt =====
-- Runs of the logger with two transmitters whose packets have one id.
use netsim.Prelude.{ℕ, ◌≡◌, refl, ◌≢◌, ◌↔◌, true, false, List, [], ◌∷◌, some}
use netsim.Prelude.Int.{ℤ, pos}
use netsim.Core.Audio.{AudioBuffer, Marker, tagged}
use netsim.Core.Logger.{
  Direction, LoggerConfig, Effect, Files, Call, file_name, log_audio, run, init,
}
use netsim.Core.Logger.Entries.{announces}
use netsim.Core.Logger.Events.{is_open, run-announces}

abbrev cfg : LoggerConfig
cfg = record { log_directory = b'.' ∷ []; start_time = b't' ∷ [] }

abbrev block : ℕ → AudioBuffer ℕ
block n = record { buffer_start_time = n; jack_frame_time = n; samples = n ∷ [] }

abbrev out_call : ℤ → ℤ → Marker → ℕ → Call ℕ
out_call from to m n = record {
  direction = Direction.output;
  from = from;
  to = to;
  buffer = tagged (some (block n)) m (pos 7);
}

-- "./netsim_t_out_007_tx0_rx12.bin"
out_name :
    file_name cfg Direction.output (pos 7) (pos 0) (pos 12)
    ≡ b'.' ∷ b'/' ∷ b'n' ∷ b'e' ∷ b't' ∷ b's' ∷ b'i' ∷ b'm' ∷ b'_' ∷ b't' ∷ b'_' ∷ b'o' ∷ b'u'
      ∷ b't' ∷ b'_' ∷ b'0' ∷ b'0' ∷ b'7' ∷ b'_' ∷ b't' ∷ b'x' ∷ b'0' ∷ b'_' ∷ b'r' ∷ b'x' ∷ b'1'
      ∷ b'2' ∷ b'.' ∷ b'b' ∷ b'i' ∷ b'n' ∷ []
unfolding file_name
out_name = refl

abbrev history : List (Call ℕ)
history =
    out_call (pos 0) (pos 1) Marker.start 1
    ∷ out_call (pos 0) (pos 2) Marker.start 1
    ∷ out_call (pos 0) (pos 1) Marker.end 2
    ∷ []

run-announces_example :
    let c = out_call (pos 0) (pos 2) Marker.end 2 in
    (f : Files) × (out : List (Effect ℕ)) × (run cfg history init ≡ some (f, out))
    × (f' : Files) × (out' : List (Effect ℕ)) × (log_audio cfg c.direction c.from c.to c.buffer f
        ≡ some (f', out'))
    × ((announces out' ≡ true) ↔ (
        (c.direction ≡ Direction.output)
        × (c.buffer.marker ≡ Marker.end)
        × ((k : ℤ) → k ≢ c.to → is_open c.buffer.packet_id k false history ≡ false)))
run-announces_example =
    run-announces cfg history (out_call (pos 0) (pos 2) Marker.end 2) (refl, (refl, (refl, tt)))
      refl
