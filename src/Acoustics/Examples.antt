-- ===== src/Acoustics/Examples.antt =====
-- Two water columns over whole numbers, of which the second has the deeper sea floor.
use netsim.Prelude.{◌*◌, ◌+◌, ◌≡◌, refl, [], ◌∷◌, length, get_elem?, some, if◌then◌else◌, arith}
use netsim.Prelude.Int.{ℤ, pos}
use netsim.Prelude.Floats.{int_double, int_cmath, of_nat}
use netsim.Acoustics.Ocean.{shallow, deep, ocean}
use netsim.Acoustics.Profile.{
  ok, thrown, depth_ssp_map, add_samples, assign_depth, add_eofs, k_bathy_max, matrix_row, fill_row,
  deepest_ssp_dep, store, back,
}
use netsim.Acoustics.Matrix.{aligned, padded, matrix_row_lem}
use netsim.Acoustics.EnvFile.{
  EnvFiles, int, number, str, endl, output_env, ssp_file, ssp_line, ssp_lines, ssp_ranges, range_km,
}
use netsim.Acoustics.Widths.{all_aligned, HasDepths, numbers}
use netsim.Acoustics.Total.{output_env_total}

profile : depth_ssp_map deep ≡ (pos 0, pos 1492) ∷ (pos 10, pos 1497) ∷ (pos 20, pos 1502) ∷ []
unfolding depth_ssp_map add_samples assign_depth add_eofs
profile = refl

shallow_depths : HasDepths 3 shallow
unfolding depth_ssp_map add_samples assign_depth add_eofs
shallow_depths = (omega arith, omega arith)

matrix_row_lem_example : matrix_row (pos 0 ∷ pos 10 ∷ pos 20 ∷ []) 3 shallow ≡ (
    if aligned (pos 0 ∷ pos 10 ∷ pos 20 ∷ []) (depth_ssp_map shallow)
    then ok (padded 3 (depth_ssp_map shallow))
    else thrown)
matrix_row_lem_example =
    matrix_row_lem (pos 0 ∷ pos 10 ∷ pos 20 ∷ []) 3 shallow (shallow_depths.0) (shallow_depths.1)
      (shallow_depths.1)

-- The last depth of the shallow column takes the place of the one of the grid.
row : matrix_row (pos 0 ∷ pos 10 ∷ pos 20 ∷ []) 3 shallow ≡ ok (pos 1500 ∷ pos 1510 ∷ pos 1510 ∷ [])
unfolding matrix_row fill_row store back depth_ssp_map add_samples assign_depth add_eofs
row = refl

deepest_is_deep :
    get_elem? ocean.water_column (k_bathy_max (of_nat 0) 0 0 ocean.water_column) ≡ some deep
unfolding k_bathy_max
deepest_is_deep = refl

have_depths :
    HasDepths (length (depth_ssp_map deep)) shallow × HasDepths (length (depth_ssp_map deep)) deep
unfolding depth_ssp_map add_samples assign_depth add_eofs
have_depths = ((omega arith, omega arith), (omega arith, omega arith))

output_env_total_example :
    (files : EnvFiles ℤ) × (output_env ocean ≡ (
      if all_aligned (deepest_ssp_dep (depth_ssp_map deep)) ocean.water_column
      then ok files
      else thrown))
    × (numbers files.ssp ≡ length ocean.water_column * (length deep.sample + 1))
output_env_total_example =
    output_env_total ocean deep deepest_is_deep (omega arith) (have_depths.0, (have_depths.1, tt))

table :
    ssp_file ocean.water_column ((pos 7 ∷ pos 8 ∷ []) ∷ (pos 9 ∷ pos 6 ∷ []) ∷ [])
    ≡ ok (
        int (pos 2)
        ∷ endl
        ∷ number (pos 0)
        ∷ str " "
        ∷ number (pos 5)
        ∷ str " "
        ∷ endl
        ∷ number (pos 7)
        ∷ str " "
        ∷ number (pos 9)
        ∷ str " "
        ∷ endl
        ∷ number (pos 8)
        ∷ str " "
        ∷ number (pos 6)
        ∷ str " "
        ∷ endl
        ∷ [])
unfolding ssp_file ssp_lines ssp_line ssp_ranges range_km
table = refl
