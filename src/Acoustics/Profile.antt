-- ===== src/Acoustics/Profile.antt =====
-- src/lib/acousticstoolbox/environment.cpp, output_env: the sound speed profiles of the water columns,
-- and the grid that they are put on. A profile is a std::map<double, double> from depths to speeds, as a
-- list in the order of the depths.
use netsim.Prelude.{
  ℕ, zero, suc, ◌+◌, ◌-◌, not, List, [], ◌∷◌, map, Option, none, some, length, get_elem?, replicate,
  ◌==◌, if◌then◌else◌,
}
use netsim.Prelude.Int.{ℤ, eqb_ℤ}
use netsim.Prelude.Floats.{Double}
use netsim.Acoustics.{WaterColumn, SspSample}

-- What output_env comes to: an exception that it throws, or a step that C++ does not define.
pub data Result {ℓ} (A : Type ℓ) : Type ℓ where
  ok : A → Result A
  thrown : Result A
  undefined : Result A

infixl 5 ◌>>=◌
abbrev pub ◌>>=◌ {ℓ κ} : {A : Type ℓ} {B : Type κ} → Result A → (A → Result B) → Result B
ok a >>= f = f a
thrown >>= f = thrown
undefined >>= f = undefined

-- A read of a vector or a repeated field.
abbrev pub at {ℓ} : {A : Type ℓ} → Option A → Result A
at none = undefined
at (some a) = ok a

module _ {ℓ} {A : Type ℓ} where
  -- `v[i] = a`
  unfoldable pub store : List A → ℕ → A → Result (List A)
  store [] i a = undefined
  store (x ∷ xs) zero a = ok (a ∷ xs)
  store (x ∷ xs) (suc i) a = store xs i a >>= λ ys. ok (x ∷ ys)

  unfoldable pub back : A → List A → A
  back a [] = a
  back a (b ∷ bs) = back b bs

module _ {ℓ} {D : Type ℓ} ⦃d : Double D⦄ where
  -- The loop that adds the empirical orthogonal functions to `ssp`.
  unfoldable pub add_eofs : D → List D → List D → D
  add_eofs ssp (eof ∷ eofs) (coef ∷ coefs) = add_eofs (d.add ssp (d.mul eof coef)) eofs coefs
  add_eofs ssp [] _ = ssp
  add_eofs ssp (eof ∷ eofs) [] = ssp

  -- `depth_ssp_map[depth] = ssp`
  unfoldable pub assign_depth : D → D → List (D × D) → List (D × D)
  assign_depth depth ssp [] = (depth, ssp) ∷ []
  assign_depth depth ssp ((z, c) ∷ m) =
      let rest = assign_depth depth ssp m in
      if d.lt z depth
      then (z, c) ∷ rest
      else if d.lt depth z
      then (depth, ssp) ∷ (z, c) ∷ m
      else (z, ssp) ∷ m

  unfoldable pub add_samples : List D → List (SspSample D) → List (D × D) → List (D × D)
  add_samples coefs [] m = m
  add_samples coefs (s ∷ samples) m =
      add_samples coefs samples (assign_depth s.depth (add_eofs s.cp s.eof coefs) m)

  unfoldable pub depth_ssp_map : WaterColumn D → List (D × D)
  depth_ssp_map c = add_samples c.eof_coef c.sample []

  -- The loop over `k`, from the column `k` on.
  unfoldable pub k_bathy_max : D → ℕ → ℕ → List (WaterColumn D) → ℕ
  k_bathy_max bathy_max best k [] = best
  k_bathy_max bathy_max best k (c ∷ columns) =
      k_bathy_max (if d.lt bathy_max c.bathymetry then c.bathymetry else bathy_max)
        (if d.lt bathy_max c.bathymetry then k else best) (k + 1) columns

  -- `deepest_ssp_dep`, whose elements are of the type `int`.
  unfoldable pub deepest_ssp_dep : List (D × D) → List ℤ
  deepest_ssp_dep m = map (λ p. d.trunc p.0) m

  -- The loop that puts a profile of `size` entries into its row, from the entry `indx` on.
  unfoldable pub fill_row : List ℤ → ℕ → ℕ → List (D × D) → List D → Result (List D)
  fill_row deepest size indx [] row = ok row
  fill_row deepest size indx ((z, c) ∷ m) row =
      let put = store row indx c >>= fill_row deepest size (indx + 1) m in
      at (get_elem? deepest indx) >>= λ depth.
      if not (eqb_ℤ (d.trunc z) depth) then (if indx == size - 1 then put else thrown) else put

  -- The row of a column: `width` times its deepest speed, and the profile put into it.
  unfoldable pub matrix_row : List ℤ → ℕ → WaterColumn D → Result (List D)
  matrix_row deepest width column = elim (depth_ssp_map column) [
    | [] ↦ undefined
    | p ∷ m ↦ fill_row deepest (suc (length m)) 0 (p ∷ m) (replicate width (back p m).1)
  ]

  unfoldable pub rd_ssp_mat : List ℤ → ℕ → List (WaterColumn D) → Result (List (List D))
  rd_ssp_mat deepest width [] = ok []
  rd_ssp_mat deepest width (column ∷ columns) = do
    row ← matrix_row deepest width column
    rows ← rd_ssp_mat deepest width columns
    ok (row ∷ rows)
