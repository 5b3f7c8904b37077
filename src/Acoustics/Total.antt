-- ===== src/Acoustics/Total.antt =====
-- src/lib/acousticstoolbox/environment.cpp: output_env as a whole, for several water columns.
use Prim.Native.String.{String}
use netsim.Prelude.{
  ℕ, zero, suc, ◌+◌, ◌*◌, ◌≤◌, ◌<◌, ◌≡◌, refl, sym, ap, subst, ◌∙◌, List, [], ◌∷◌, ◌++◌, map, some,
  length, get_elem?, ltb, if◌then◌else◌, if-true, arith, All, All-weaken, length-map,
}
use netsim.Prelude.Int.{pos}
use netsim.Prelude.Floats.{Double, Cmath, of_nat}
use netsim.Acoustics.{WaterColumn, Environment}
use netsim.Acoustics.Profile.{
  ok, thrown, ◌>>=◌, at, back, depth_ssp_map, k_bathy_max, deepest_ssp_dep,
}
use netsim.Acoustics.Matrix.{padded}
use netsim.Acoustics.EnvFile.{
  files_with, dependent_files, write_env, bty_file, Token, str, number, int, endl, EnvFiles,
  ssp_line, ssp_lines, ssp_ranges, ssp_file, write_files, output_env, column_char,
}
use netsim.Acoustics.Widths.{
  all_aligned, HasDepths, rd_ssp_mat_lem, length-padded, length-depth_ssp_map, get_elem?-some,
  numbers, numbers-append, cells, bind-if,
}

module _ {ℓ} {D : Type ℓ} ⦃d : Double D⦄ ⦃f : Cmath D⦄ where
  numbers-ssp_ranges :
      (columns : List (WaterColumn D)) → numbers (ssp_ranges columns) ≡ length columns
  unfolding numbers ssp_ranges
  numbers-ssp_ranges [] = refl
  numbers-ssp_ranges (c ∷ columns) = ap suc (numbers-ssp_ranges columns)

  -- A line of the matrix has a number for each row.
  ssp_line-ok :
      (i : ℕ) (rows : List (List D))
      → All (λ row. i < length row) rows
      → (line : List (Token D)) × (ssp_line i rows ≡ ok line) × (numbers line ≡ length rows)
  unfolding numbers ssp_line
  ssp_line-ok i [] h = (endl ∷ [], refl, refl)
  ssp_line-ok i (row ∷ rows) (h, hs) =
      let (c, e) = get_elem?-some row i h in
      let (line, e', n) = ssp_line-ok i rows hs in
      (number c ∷ str " " ∷ line, rw (e, e') refl, ap suc n)

  ssp_lines-ok :
      (n i : ℕ) (rows : List (List D))
      → All (λ row. i + n ≤ length row) rows
      → (lines : List (Token D)) × (ssp_lines n i rows ≡ ok lines)
        × (numbers lines ≡ n * length rows)
  unfolding numbers ssp_lines
  ssp_lines-ok zero i rows h = ([], refl, omega arith)
  ssp_lines-ok (suc n) i rows h =
      let (line, e, k) = ssp_line-ok i rows (All-weaken (λ row l. omega arith) rows h) in
      let (lines, e', k') =
        ssp_lines-ok n (i + 1) rows (All-weaken (λ row l. omega arith) rows h) in
      (line ++ lines, rw (e, e') refl, numbers-append line lines ∙ grind arith)

  ssp_file-ok :
      (width : ℕ) (columns : List (WaterColumn D)) (rows : List (List D))
      → 0 < length rows
      → All (λ row. length row ≡ width) rows
      → (ts : List (Token D)) × (ssp_file columns rows ≡ ok ts)
        × (numbers ts ≡ length columns + width * length rows)
  unfolding ssp_file numbers
  ssp_file-ok width columns [] some_row h = absurd (omega arith)
  ssp_file-ok width columns (row ∷ rows) some_row h =
      let (lines, e, n) =
        ssp_lines-ok (length row) 0 (row ∷ rows)
          (All-weaken (λ r l. omega (arith, h.0)) (row ∷ rows) h) in
      (
        int (pos (length columns)) ∷ endl ∷ ssp_ranges columns ++ endl ∷ lines,
        rw e refl,
        numbers-append (ssp_ranges columns) (endl ∷ lines)
            ∙ omega
                (arith, numbers-ssp_ranges columns, n, ap (λ (w : ℕ). w * length (row ∷ rows)) h.0),
      )

  rows-width :
      (width n : ℕ) (columns : List (WaterColumn D))
      → n ≤ width
      → All (HasDepths n) columns
      → All (λ row. length row ≡ width) (map (λ c. padded width (depth_ssp_map c)) columns)
  rows-width width n [] l h = tt
  rows-width width n (c ∷ columns) l ((h0, h1), hs) =
      (length-padded width (depth_ssp_map c) h0 (omega arith), rows-width width n columns l hs)

  length-deepest_ssp_dep : (m : List (D × D)) → length (deepest_ssp_dep m) ≡ length m
  unfolding deepest_ssp_dep
  length-deepest_ssp_dep m = length-map (λ p. d.trunc p.0) m

  write_files-total :
      (env : Environment D) (column : String) (c : WaterColumn D) (max_depth : D) (m : List (D × D))
      → length m ≤ length c.sample
      → 1 < length env.water_column
      → All (HasDepths (length m)) env.water_column
      → (files : EnvFiles D) × (write_files env column c max_depth m
          ≡ (if all_aligned (deepest_ssp_dep m) env.water_column then ok files else thrown))
        × (numbers files.ssp ≡ length env.water_column * (length c.sample + 1))
  unfolding write_files dependent_files files_with
  write_files-total env column c max_depth m l two h =
      let columns = env.water_column in
      let grid = deepest_ssp_dep m in
      let depths : length grid ≡ length m = length-deepest_ssp_dep m in
      let rows = map (λ k. padded (length c.sample) (depth_ssp_map k)) columns in
      let count : length rows ≡ length columns =
        length-map (λ k. padded (length c.sample) (depth_ssp_map k)) columns in
      let (ssp, e, n) =
        ssp_file-ok (length c.sample) columns rows (omega (arith, count))
          (rows-width (length c.sample) (length m) columns l h) in
      let matrix =
        rd_ssp_mat_lem grid (length c.sample) columns (omega (arith, depths))
          (subst (λ k. All (HasDepths k) columns) (sym depths) h) in
      (
        files_with env column c max_depth m ssp (bty_file columns),
        if-true (ltb 1 (length columns)) (dependent_files env column c max_depth m)
              (ok (files_with env column c max_depth m [] [])) (ground arith)
            ∙ rw (dependent_files, matrix) (bind-if (all_aligned grid columns) rows _ (rw e refl)),
        n ∙ cells (length columns) (length c.sample) (length rows) count,
      )

  some_depth : (columns : List (WaterColumn D)) → 1 < length columns → All (HasDepths 0) columns → ⊥
  some_depth [] h hs = absurd (omega arith)
  some_depth (c ∷ columns) h ((h0, h1), hs) = absurd (omega arith)

  write_env-total :
      (env : Environment D) (column : String) (c : WaterColumn D) (m : List (D × D))
      → length m ≤ length c.sample
      → 1 < length env.water_column
      → All (HasDepths (length m)) env.water_column
      → (files : EnvFiles D) × (write_env env column c m
          ≡ (if all_aligned (deepest_ssp_dep m) env.water_column then ok files else thrown))
        × (numbers files.ssp ≡ length env.water_column * (length c.sample + 1))
  unfolding write_env
  write_env-total env column c [] l two h = absurd (some_depth env.water_column two h)
  write_env-total env column c (p ∷ m) l two h =
      write_files-total env column c (back p m).0 (p ∷ m) l two h

  -- Let there be several water columns, each with samples and none with samples at more depths than the
  -- one of the deepest sea floor. Then output_env does nothing that is undefined: it returns, exactly if
  -- the depths of all columns are aligned with those of that one, and throws its exception otherwise; and
  -- the .ssp file has a number for each sample of that column, and one more, for each of the columns.
  pub output_env_total :
      (env : Environment D) (c : WaterColumn D)
      → get_elem? env.water_column (k_bathy_max (of_nat 0) 0 0 env.water_column) ≡ some c
      → 1 < length env.water_column
      → All (HasDepths (length (depth_ssp_map c))) env.water_column
      → (files : EnvFiles D) × (output_env env ≡ (
          if all_aligned (deepest_ssp_dep (depth_ssp_map c)) env.water_column
          then ok files
          else thrown))
        × (numbers files.ssp ≡ length env.water_column * (length c.sample + 1))
  unfolding output_env column_char
  output_env_total env c e two h =
      let (files, e', n) =
        write_env-total env "Q" c (depth_ssp_map c) (length-depth_ssp_map c) two h in
      (
        files,
        ap
              (λ r. r >>= λ column.
                at (get_elem? env.water_column (k_bathy_max (of_nat 0) 0 0 env.water_column))
                >>= λ k. write_env env column k (depth_ssp_map k))
              (if-true (ltb 1 (length env.water_column)) _ _ (ground arith))
            ∙ ap (λ o. at o >>= λ k. write_env env "Q" k (depth_ssp_map k)) e
            ∙ e',
        n,
      )
