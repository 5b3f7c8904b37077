-- ===== src/Manager/Gps/Examples.antt =====
-- Sentences with positions in thousandths of a degree.
use netsim.Prelude.{◌+◌, ◌-◌, ◌*◌, ◌/◌, ◌^◌, ◌≡◌, refl, true, [], ◌∷◌, arith}
use netsim.Prelude.Int.{ℤ, pos, negsuc, ◌*ℤ◌, ◌/ℤ◌}
use netsim.Prelude.Floats.{Double, int_double, Cmath, int_cmath}
use netsim.Prelude.Text.{Text, digits, nat_text, pad_left}
use netsim.Manager.{NavUpdate}
use netsim.Manager.Gps.{
  Ptime, zero_padded, gps_time, gps_date, floor_int, degrees, arc, ten_thousandths, angle_text,
}
use netsim.Manager.Gps.Sentence.{Fits}

abbrev thousandths : Double ℤ
thousandths = record int_double {
  of_int = λ z. z *ℤ pos 1000;
  mul = λ a b. ◌/ℤ◌ (a *ℤ b) (pos 1000);
  div = λ a b. ◌/ℤ◌ (a *ℤ pos 1000) b;
  trunc = λ z. ◌/ℤ◌ z (pos 1000);
}

abbrev thousandths_cmath : Cmath ℤ
thousandths_cmath = record int_cmath {
  floor =
      λ a. elim a [ pos n ↦ pos (n / 1000 * 1000) | negsuc n ↦ negsuc ((n / 1000 + 1) * 1000 - 1) ];
  decimal = λ m k. ◌/ℤ◌ (pos (m * 1000)) (pos (10 ^ k));
}

abbrev noon : Ptime
noon = record {
  hours = 12;
  minutes = 5;
  seconds = 9;
  fractional_seconds = 4500;
  ticks_per_second = 1000000;
  day = 7;
  month = 11;
  year = 2021;
}

-- 41.524 degrees north, 70.671 degrees west.
abbrev woods_hole : NavUpdate ℤ
woods_hole = record {
  modem_tcp_port = pos 62000;
  lat = pos 41524;
  lon = negsuc 70670;
  depth = pos 0;
  speed = pos 0;
  heading = pos 0;
  is_initialized = true;
}

abbrev zero_text : ℤ → Text
zero_text z = b'0' ∷ b'.' ∷ b'0' ∷ []

timed :
    gps_time noon
    ≡ b'1' ∷ b'2' ∷ b'0' ∷ b'5' ∷ b'0' ∷ b'9' ∷ b'.' ∷ b'0' ∷ b'0' ∷ b'4' ∷ b'5' ∷ b'0' ∷ b'0' ∷ []
unfolding gps_time zero_padded pad_left nat_text digits
timed = refl

dated : gps_date noon ≡ b'0' ∷ b'7' ∷ b'1' ∷ b'1' ∷ b'2' ∷ b'1' ∷ []
unfolding gps_date zero_padded pad_left nat_text digits
dated = refl

-- 41 degrees and 31.4400 minutes.
latitude :
    angle_text ⦃d = thousandths⦄ ⦃c = thousandths_cmath⦄ 2 (woods_hole.lat)
    ≡ b'4' ∷ b'1' ∷ b'3' ∷ b'1' ∷ b'.' ∷ b'4' ∷ b'4' ∷ b'0' ∷ b'0' ∷ []
unfolding angle_text zero_padded pad_left nat_text digits degrees floor_int arc ten_thousandths
latitude = refl

abbrev north : Fits ⦃d = thousandths⦄ ⦃c = thousandths_cmath⦄ 2 (woods_hole.lat)
unfolding degrees floor_int arc ten_thousandths
north = record {
  whole = 41;
  minutes = 31;
  fraction = 4400;
  degrees_eq = refl;
  minutes_eq = refl;
  fraction_eq = refl;
  degrees_less = omega arith;
  minutes_less = omega arith;
  fraction_less = omega arith;
}

abbrev west : Fits ⦃d = thousandths⦄ ⦃c = thousandths_cmath⦄ 3 (woods_hole.lon)
unfolding degrees floor_int arc ten_thousandths
west = record {
  whole = 70;
  minutes = 40;
  fraction = 2600;
  degrees_eq = refl;
  minutes_eq = refl;
  fraction_eq = refl;
  degrees_less = omega arith;
  minutes_less = omega arith;
  fraction_less = omega arith;
}
