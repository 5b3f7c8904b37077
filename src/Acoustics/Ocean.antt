-- ===== src/Acoustics/Ocean.antt =====
-- A small ocean over whole numbers, for concrete runs: two water columns, of which the second has the
-- deeper sea floor.
use netsim.Prelude.{ℕ, true, false, [], ◌∷◌}
use netsim.Prelude.Int.{ℤ, pos, negsuc}
use netsim.Prelude.Floats.{int_double, int_cmath}
use netsim.Acoustics.{
  vacuum, half_space, db_per_wavelength, cubic_spline, coherent_pressure, gaussian, Medium,
  SspSample, WaterColumn, Environment,
}

abbrev pub sample_at : ℕ → ℕ → SspSample ℤ
sample_at depth cp = record { depth = pos depth; cp = pos cp; eof = pos 1 ∷ [] }

abbrev pub shallow : WaterColumn ℤ
shallow = record {
  interpolation_type = cubic_spline;
  eof_coef = [];
  use_attenuation = true;
  sample = sample_at 0 1500 ∷ sample_at 15 1510 ∷ [];
  range = pos 0;
  bathymetry = pos 15;
}

abbrev pub deep : WaterColumn ℤ
deep = record {
  interpolation_type = cubic_spline;
  eof_coef = pos 2 ∷ [];
  use_attenuation = false;
  sample = sample_at 20 1500 ∷ sample_at 0 1490 ∷ sample_at 10 1495 ∷ [];
  range = pos 5000;
  bathymetry = pos 20;
}

abbrev pub bed : Medium ℤ
bed = record {
  type = half_space;
  attenuation_units = db_per_wavelength;
  attenuation_value = pos 1;
  cp = pos 1600;
  cs = pos 0;
  density = pos 2;
  depth = pos 20;
  rc_sample = [];
}

abbrev pub ocean : Environment ℤ
ocean = record {
  title = "ocean";
  freq = 25000;
  output_type = coherent_pressure;
  surface = record bed { type = vacuum };
  water_column = shallow ∷ deep ∷ [];
  bottom = bed;
  sources = record { number_in_depth = 1; first_depth = pos 5; last_depth = pos 5 };
  receivers = record {
    number_in_depth = 1;
    number_in_range = 2;
    first_depth = pos 5;
    first_range = pos 1000;
    last_depth = pos 5;
    last_range = pos 4000;
  };
  beams = record {
    approximation_type = gaussian;
    theta_min = negsuc 89;
    theta_max = pos 90;
    number = 10;
  };
  adaptive_info = record {
    contact = "";
    ownship = "";
    read_shd = false;
    full_shd_matrix = false;
    auto_receiver_ranges = false;
    auto_receiver_ranges_delta = pos 1;
    look_ahead_seconds = 60;
    auto_source_depth = false;
  };
}
