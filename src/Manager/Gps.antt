-- ===== src/Manager/Gps.antt =====
-- src/apps/netsim_manager/manager.cpp: the sentence for the GPS receiver of a vehicle. The format
-- `%.1f` and the sentence of Goby with its checksum are parameters.
pub mod Angles
pub mod Sentence
mod Examples
use netsim.Prelude.{ℕ, ◌+◌, ◌-◌, ◌*◌, ◌/◌, Bool, List, [], ◌∷◌, ◌++◌, if◌then◌else◌}
use netsim.Prelude.Int.{ℤ, pos, negsuc}
use netsim.Prelude.Floats.{Double, Cmath, of_nat}
use netsim.Prelude.Text.{Text, nat_text, pad_left}
use netsim.Manager.{NavUpdate}

-- What the code reads of a `boost::posix_time::ptime`.
pub record Ptime : Type 0 where
  pub hours : ℕ
  pub minutes : ℕ
  pub seconds : ℕ
  pub fractional_seconds : ℕ
  pub ticks_per_second : ℕ
  pub day : ℕ
  pub month : ℕ
  pub year : ℕ

pub record GpsLine : Type 0 where
  pub index : ℤ
  pub io_data : Text

-- The format `%0wd`.
unfoldable pub zero_padded : ℕ → ℤ → Text
zero_padded w (pos n) = pad_left w b'0' (nat_text n)
zero_padded w (negsuc n) = b'-' ∷ pad_left (w - 1) b'0' (nat_text (n + 1))

unfoldable pub gps_time : Ptime → Text
gps_time now =
    zero_padded 2 (pos now.hours)
    ++ zero_padded 2 (pos now.minutes)
    ++ zero_padded 2 (pos now.seconds)
    ++ b'.' ∷ zero_padded 6 (pos (now.fractional_seconds * 1000000 / now.ticks_per_second))

unfoldable pub gps_date : Ptime → Text
gps_date now =
    zero_padded 2 (pos now.day)
    ++ zero_padded 2 (pos now.month)
    ++ zero_padded 2 (pos (now.year - now.year / 100 * 100))

module _ {ℓ} {D : Type ℓ} ⦃d : Double D⦄ ⦃c : Cmath D⦄ where
  -- `std::floor`, stored in an `int`
  unfoldable pub floor_int : D → ℤ
  floor_int x = d.trunc (c.floor x)

  unfoldable pub degrees : D → ℤ
  degrees x = floor_int x

  -- The minutes of arc, with their fraction.
  unfoldable pub arc : D → D
  arc x = d.mul (d.sub x (d.of_int (degrees x))) (of_nat 60)

  unfoldable pub ten_thousandths : D → ℤ
  ten_thousandths x =
      floor_int (d.mul (d.sub (arc x) (d.of_int (floor_int (arc x)))) (of_nat 10000))

  -- `lat_fmt` with 2 digits of degrees, `lon_fmt` with 3.
  unfoldable pub angle_text : ℕ → D → Text
  angle_text w coordinate =
      let x = d.abs coordinate in
      zero_padded w (degrees x)
      ++ zero_padded 2 (floor_int (arc x))
      ++ b'.' ∷ zero_padded 4 (ten_thousandths x)

  -- The hemisphere.
  unfoldable pub hemisphere : Text → Text → D → Text
  hemisphere south north coordinate = if d.lt coordinate (of_nat 0) then south else north

  unfoldable pub gprmc : (D → Text) → Ptime → NavUpdate D → List Text
  gprmc one_decimal now nav =
      (b'$' ∷ b'G' ∷ b'P' ∷ b'R' ∷ b'M' ∷ b'C' ∷ [])
      ∷ gps_time now
      ∷ (b'A' ∷ [])
      ∷ angle_text 2 nav.lat
      ∷ hemisphere (b'S' ∷ []) (b'N' ∷ []) nav.lat
      ∷ angle_text 3 nav.lon
      ∷ hemisphere (b'W' ∷ []) (b'E' ∷ []) nav.lon
      ∷ one_decimal (d.mul nav.speed (c.decimal 194384 5))
      ∷ one_decimal nav.heading
      ∷ gps_date now
      ∷ (b'0' ∷ b'0' ∷ b'0' ∷ b'.' ∷ b'0' ∷ [])
      ∷ (b'E' ∷ [])
      ∷ []

  unfoldable pub write_gps_out : (D → Text) → (List Text → Text) → Ptime → NavUpdate D → GpsLine
  write_gps_out one_decimal message_cr_nl now nav = record {
    index = nav.modem_tcp_port;
    io_data = message_cr_nl (gprmc one_decimal now nav);
  }
