-- ===== src/Acoustics/EnvFile.antt =====
-- src/lib/acousticstoolbox/environment.cpp, output_env: what is written to the five files, as the list
-- of the operands of `<<`. `fixed3` is `std::fixed << std::setprecision(3)`, which holds for all numbers
-- behind it.
use Prim.Native.String.{String}
use netsim.Prelude.{ℕ, zero, suc, ◌+◌, List, [], ◌∷◌, ◌++◌, length, get_elem?, ltb, if◌then◌else◌}
use netsim.Prelude.Int.{ℤ, pos}
use netsim.Prelude.Floats.{Double, Cmath, of_nat}
use netsim.Acoustics.{
  MediumType, vacuum, rigid, half_space, reflection_coefficient, Units, db_per_m_khz,
  parameter_loss, db_per_m, nepers_per_m, q_factor, db_per_wavelength, SspInterpolation,
  cubic_spline, c_linear, n2_linear, OutputType, arrival_times, eigenrays, rays, coherent_pressure,
  incoherent_pressure, semicoherent_pressure, ApproximationType, geometric, cartesian, ray_centered,
  gaussian, RcSample, Medium, WaterColumn, Environment,
}
use netsim.Acoustics.Profile.{
  Result, ok, undefined, ◌>>=◌, at, depth_ssp_map, back, k_bathy_max, deepest_ssp_dep, rd_ssp_mat,
}

pub data Token {ℓ} (D : Type ℓ) : Type ℓ where
  str : String → Token D
  number : D → Token D
  int : ℤ → Token D
  fixed3 : Token D
  endl : Token D

pub record EnvFiles {ℓ} (D : Type ℓ) : Type ℓ where
  pub os : List (Token D)
  pub ssp : List (Token D)
  pub bty : List (Token D)
  pub trc : List (Token D)
  pub brc : List (Token D)

unfoldable pub interpolation_char : SspInterpolation → String
interpolation_char cubic_spline = "S"
interpolation_char c_linear = "C"
interpolation_char n2_linear = "N"

unfoldable pub medium_char : MediumType → String
medium_char vacuum = "V"
medium_char rigid = "R"
medium_char half_space = "A"
medium_char reflection_coefficient = "F"

unfoldable pub units_char : Units → String
units_char db_per_m_khz = "F"
units_char parameter_loss = "L"
units_char db_per_m = "M"
units_char nepers_per_m = "N"
units_char q_factor = "Q"
units_char db_per_wavelength = "W"

unfoldable pub output_char : OutputType → String
output_char arrival_times = "A"
output_char eigenrays = "E"
output_char rays = "R"
output_char coherent_pressure = "C"
output_char incoherent_pressure = "I"
output_char semicoherent_pressure = "S"

unfoldable pub approximation_char : ApproximationType → String
approximation_char geometric = "G"
approximation_char cartesian = "C"
approximation_char ray_centered = "R"
approximation_char gaussian = "B"

module _ {ℓ} {D : Type ℓ} ⦃d : Double D⦄ ⦃f : Cmath D⦄ where
  abbrev nat : ℕ → Token D
  nat n = int (pos n)

  -- The line of a half space.
  unfoldable pub half_space_line : Medium D → List (Token D)
  half_space_line m =
      number m.depth
      ∷ str " "
      ∷ number m.cp
      ∷ str " "
      ∷ number m.cs
      ∷ str " "
      ∷ number m.density
      ∷ str " "
      ∷ number m.attenuation_value
      ∷ str " /"
      ∷ endl
      ∷ []

  -- The table of the reflection coefficients.
  unfoldable pub rc_lines : List (RcSample D) → List (Token D)
  rc_lines [] = []
  rc_lines (s ∷ samples) =
      number s.angle
      ∷ str " "
      ∷ number (f.pow (of_nat 10) (d.div (f.neg s.rc) (of_nat 20)))
      ∷ str " "
      ∷ number s.phase
      ∷ endl
      ∷ rc_lines samples

  -- The file of a reflection coefficient.
  unfoldable pub rc_file : List (RcSample D) → List (Token D)
  rc_file [] = []
  rc_file (s ∷ samples) = nat (suc (length samples)) ∷ endl ∷ rc_lines (s ∷ samples)

  -- What a medium adds to the .env file and to its file of reflection coefficients.
  unfoldable pub medium_env : Medium D → List (Token D)
  medium_env m = elim (m.type) [ half_space ↦ half_space_line m | _ ↦ [] ]

  unfoldable pub medium_rc : Medium D → List (Token D)
  medium_rc m = elim (m.type) [ reflection_coefficient ↦ rc_file m.rc_sample | _ ↦ [] ]

  unfoldable pub profile_lines : List (D × D) → List (Token D)
  profile_lines [] = []
  profile_lines ((z, c) ∷ m) =
      fixed3 ∷ number z ∷ str " " ∷ number c ∷ str " /" ∷ endl ∷ profile_lines m

  -- A number of positions, and the first and the last of them.
  unfoldable pub positions : ℕ → D → D → List (Token D)
  positions n first last =
      nat n ∷ endl ∷ number first ∷ (if ltb 1 n then str " " ∷ number last ∷ [] else [])
      ++ str " /" ∷ endl ∷ []

  unfoldable pub range_km : D → D
  range_km r = d.div r (of_nat 1000)

  unfoldable pub ssp_ranges : List (WaterColumn D) → List (Token D)
  ssp_ranges [] = []
  ssp_ranges (c ∷ columns) = number (range_km c.range) ∷ str " " ∷ ssp_ranges columns

  unfoldable pub bty_lines : List (WaterColumn D) → List (Token D)
  bty_lines [] = []
  bty_lines (c ∷ columns) =
      number (range_km c.range) ∷ str " " ∷ fixed3 ∷ number c.bathymetry ∷ endl ∷ bty_lines columns

  -- The line of the matrix at the depth `i`.
  unfoldable pub ssp_line : ℕ → List (List D) → Result (List (Token D))
  ssp_line i [] = ok (endl ∷ [])
  ssp_line i (row ∷ rows) = do
    c ← at (get_elem? row i)
    line ← ssp_line i rows
    ok (number c ∷ str " " ∷ line)

  -- The lines from the depth `i` on, `n` of them.
  unfoldable pub ssp_lines : ℕ → ℕ → List (List D) → Result (List (Token D))
  ssp_lines zero i rows = ok []
  ssp_lines (suc n) i rows = do
    line ← ssp_line i rows
    lines ← ssp_lines n (i + 1) rows
    ok (line ++ lines)

  unfoldable pub ssp_file : List (WaterColumn D) → List (List D) → Result (List (Token D))
  ssp_file columns rows = do
    first ← at (get_elem? rows 0)
    lines ← ssp_lines (length first) 0 rows
    ok (nat (length columns) ∷ endl ∷ ssp_ranges columns ++ endl ∷ lines)

  unfoldable pub bty_file : List (WaterColumn D) → List (Token D)
  bty_file columns = str "'L'" ∷ endl ∷ nat (length columns) ∷ endl ∷ bty_lines columns

  -- The interpolation, or that there is a file of profiles.
  unfoldable pub column_char : List (WaterColumn D) → Result String
  column_char columns =
      if ltb 1 (length columns)
      then ok "Q"
      else (at (get_elem? columns 0) >>= λ c. ok (interpolation_char c.interpolation_type))

  -- The .env file up to the profile.
  unfoldable pub env_head : String → Environment D → List (Token D)
  env_head column env =
      str "'"
        ∷ str env.title
        ∷ str "'"
        ∷ endl
        ∷ nat env.freq
        ∷ endl
        ∷ str "1"
        ∷ endl
        ∷ str "'"
        ∷ str column
        ∷ medium_env env.surface
      ++ str (medium_char env.surface.type) ∷ str (units_char env.bottom.attenuation_units) ∷ []

  -- The profile of the deepest column.
  unfoldable pub env_profile : WaterColumn D → D → List (D × D) → List (Token D)
  env_profile c max_depth m =
      (if c.use_attenuation then str "T" ∷ [] else [])
      ++ str "'" ∷ endl ∷ str "0 0 " ∷ fixed3 ∷ number max_depth ∷ endl ∷ profile_lines m
      ++ str "'" ∷ []

  unfoldable pub box_scale : D
  box_scale = d.add (of_nat 1) (d.div (of_nat 10) (of_nat 100))

  -- The .env file from the bottom on.
  unfoldable pub env_tail : Environment D → D → List (Token D)
  env_tail env max_depth =
      str (medium_char env.bottom.type)
        ∷ (if ltb 1 (length env.water_column) then str "*" ∷ [] else [])
      ++ str "' 0" ∷ endl ∷ medium_env env.bottom
      ++ positions env.sources.number_in_depth env.sources.first_depth env.sources.last_depth
      ++ positions env.receivers.number_in_depth env.receivers.first_depth env.receivers.last_depth
      ++ positions env.receivers.number_in_range (range_km env.receivers.first_range)
          (range_km env.receivers.last_range)
      ++ str "'"
        ∷ str (output_char env.output_type)
        ∷ str (approximation_char env.beams.approximation_type)
        ∷ str "'"
        ∷ endl
        ∷ nat env.beams.number
        ∷ endl
        ∷ int env.beams.theta_min
        ∷ str " "
        ∷ int env.beams.theta_max
        ∷ str " /"
        ∷ endl
        ∷ str "0 "
        ∷ int (d.trunc (d.mul max_depth box_scale))
        ∷ str " "
        ∷ number (d.mul (range_km env.receivers.last_range) box_scale)
        ∷ endl
        ∷ []

  -- The files, where `m` is the profile of the deepest column `c` and `max_depth` its last depth.
  unfoldable pub files_with :
      Environment D
      → String
      → WaterColumn D
      → D
      → List (D × D)
      → List (Token D)
      → List (Token D)
      → EnvFiles D
  files_with env column c max_depth m ssp bty = record {
    os = env_head column env ++ (env_profile c max_depth m ++ env_tail env max_depth);
    ssp = ssp;
    bty = bty;
    trc = medium_rc env.surface;
    brc = medium_rc env.bottom;
  }

  -- The range-dependent case.
  unfoldable pub dependent_files :
      Environment D → String → WaterColumn D → D → List (D × D) → Result (EnvFiles D)
  dependent_files env column c max_depth m = do
    rows ← rd_ssp_mat (deepest_ssp_dep m) (length c.sample) env.water_column
    ssp ← ssp_file env.water_column rows
    ok (files_with env column c max_depth m ssp (bty_file env.water_column))

  unfoldable pub write_files :
      Environment D → String → WaterColumn D → D → List (D × D) → Result (EnvFiles D)
  write_files env column c max_depth m =
      if ltb 1 (length env.water_column)
      then dependent_files env column c max_depth m
      else ok (files_with env column c max_depth m [] [])

  -- The profile is not empty if the column has samples.
  unfoldable pub write_env :
      Environment D → String → WaterColumn D → List (D × D) → Result (EnvFiles D)
  write_env env column c [] = undefined
  write_env env column c (p ∷ m) = write_files env column c (back p m).0 (p ∷ m)

  unfoldable pub output_env : Environment D → Result (EnvFiles D)
  output_env env = do
    column ← column_char env.water_column
    c ← at (get_elem? env.water_column (k_bathy_max (of_nat 0) 0 0 env.water_column))
    write_env env column c (depth_ssp_map c)
