-- ===== src/Manager/Gps/Sentence.antt =====
-- src/apps/netsim_manager/manager.cpp: what can be read of the sentence for the GPS receiver.
use netsim.Prelude.{ℕ, zero, suc, ◌+◌, ◌*◌, ◌^◌, ◌<◌, ◌≡◌, List, [], ◌∷◌, length, take, drop}
use netsim.Prelude.Int.{pos}
use netsim.Prelude.Floats.{Double, Cmath}
use netsim.Prelude.Text.{Text}
use netsim.Prelude.Decimal.{value}
use netsim.Manager.Gps.{Ptime, floor_int, degrees, arc, ten_thousandths}
use netsim.Manager.Gps.Angles.{read_angle}

-- `n` numbers of two digits each, from the front.
unfoldable pub read_pairs : ℕ → Text → List ℕ
read_pairs zero t = []
read_pairs (suc n) t = value (take 2 t) ∷ read_pairs n (drop 2 t)

-- A time of day and a date of our time, with ticks of less than a second.
pub record IsValid (now : Ptime) : Type 0 where
  pub hours : now.hours < 24
  pub minutes : now.minutes < 60
  pub seconds : now.seconds < 60
  pub ticks : now.fractional_seconds < now.ticks_per_second
  pub day : now.day < 32
  pub month : now.month < 13

module _ {ℓ} {D : Type ℓ} ⦃d : Double D⦄ ⦃c : Cmath D⦄ where
  -- The three integers that the code computes of a coordinate, in whatever way it rounds, have no more
  -- digits than their fields.
  pub record Fits (w : ℕ) (a : D) : Type ℓ where
    pub whole : ℕ
    pub minutes : ℕ
    pub fraction : ℕ
    pub degrees_eq : degrees (d.abs a) ≡ pos whole
    pub minutes_eq : floor_int (arc (d.abs a)) ≡ pos minutes
    pub fraction_eq : ten_thousandths (d.abs a) ≡ pos fraction
    pub degrees_less : whole < 10 ^ w
    pub minutes_less : minutes < 100
    pub fraction_less : fraction < 10000

  -- They are read back.
  abbrev pub Reads : (w : ℕ) (a : D) → Fits w a → Text → Type 0
  Reads w a x t =
      (length t ≡ w + 7) × (read_angle w t ≡ (x.whole * 60 + x.minutes) * 10000 + x.fraction)
