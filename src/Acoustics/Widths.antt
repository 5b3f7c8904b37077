-- ===== src/Acoustics/Widths.antt =====
-- src/lib/acousticstoolbox/environment.cpp: the sizes of the table of sound speeds, and how many numbers are written.
use netsim.Prelude.{
  ℕ, zero, suc, ◌+◌, ◌-◌, ◌*◌, ◌≤◌, ◌<◌, ◌≡◌, refl, ◌∙◌, Bool, true, false, ◌&&◌, List, [], ◌∷◌,
  ◌++◌, map, some, length, get_elem?, drop, replicate, if◌then◌else◌, arith, All, length-replicate,
  length-append, length-map,
}
use netsim.Prelude.Int.{ℤ}
use netsim.Prelude.Floats.{Double}
use netsim.Acoustics.{WaterColumn, SspSample}
use netsim.Acoustics.Profile.{
  Result, ok, thrown, ◌>>=◌, back, depth_ssp_map, add_eofs, add_samples, assign_depth, rd_ssp_mat,
}
use netsim.Acoustics.Matrix.{aligned, padded, matrix_row_lem}
use netsim.Acoustics.EnvFile.{Token, str, number, int, fixed3, endl}

module _ {ℓ} {D : Type ℓ} ⦃d : Double D⦄ where
  unfoldable pub all_aligned : List ℤ → List (WaterColumn D) → Bool
  all_aligned grid [] = true
  all_aligned grid (c ∷ columns) = aligned grid (depth_ssp_map c) && all_aligned grid columns

  -- A water column has samples, at not more than `n` depths.
  abbrev pub HasDepths : ℕ → WaterColumn D → Type 0
  HasDepths n c = (0 < length (depth_ssp_map c)) × (length (depth_ssp_map c) ≤ n)

  pub rd_ssp_mat_lem :
      (grid : List ℤ) (width : ℕ) (columns : List (WaterColumn D))
      → length grid ≤ width
      → All (HasDepths (length grid)) columns
      → rd_ssp_mat grid width columns ≡ (
          if all_aligned grid columns
          then ok (map (λ c. padded width (depth_ssp_map c)) columns)
          else thrown)
  unfolding rd_ssp_mat all_aligned
  rd_ssp_mat_lem grid width [] w h = refl
  rd_ssp_mat_lem grid width (c ∷ columns) w ((h0, h1), hs) =
      rw (matrix_row_lem grid width c h0 h1 (omega arith), rd_ssp_mat_lem grid width columns w hs)
        (both (padded width (depth_ssp_map c)) (map (λ k. padded width (depth_ssp_map k)) columns)
          (aligned grid (depth_ssp_map c)) (all_aligned grid columns))
    where
      both :
          (row : List D) (rows : List (List D)) (a b : Bool)
          → ((if a then ok row else thrown) >>= λ r.
              (if b then ok rows else thrown) >>= λ rs. ok (r ∷ rs))
            ≡ (if a && b then ok (row ∷ rows) else thrown)
      both row rows true true = refl
      both row rows true false = refl
      both row rows false b = refl

  length-drop : (n : ℕ) (xs : List D) → length (drop n xs) ≡ length xs - n
  length-drop zero xs = omega arith
  length-drop (suc n) [] = omega arith
  length-drop (suc n) (x ∷ xs) = omega (arith, length-drop n xs)

  pub length-padded :
      (width : ℕ) (m : List (D × D))
      → 0 < length m
      → length m ≤ width
      → length (padded width m) ≡ width
  unfolding padded
  length-padded width [] h l = absurd (omega arith)
  length-padded width (p ∷ m) h l =
      let xs = replicate width (back p m).1 in
      length-append (map (λ q. q.1) (p ∷ m)) (drop (length (p ∷ m)) xs)
      ∙ omega (
        arith,
        length-map (λ (q : D × D). q.1) (p ∷ m),
        length-drop (length (p ∷ m)) xs,
        length-replicate width (back p m).1,
      )

  length-assign_depth : (z c : D) (m : List (D × D)) → length (assign_depth z c m) ≤ length m + 1
  unfolding assign_depth
  length-assign_depth z c [] = omega arith
  length-assign_depth z c ((z', c') ∷ m) = ground (arith, length-assign_depth z c m)

  length-add_samples :
      (coefs : List D) (samples : List (SspSample D)) (m : List (D × D))
      → length (add_samples coefs samples m) ≤ length m + length samples
  unfolding add_samples
  length-add_samples coefs [] m = omega arith
  length-add_samples coefs (s ∷ samples) m =
      let z = s.depth in
      let c = add_eofs s.cp s.eof coefs in
      omega
        (arith, length-add_samples coefs samples (assign_depth z c m), length-assign_depth z c m)

  pub length-depth_ssp_map : (c : WaterColumn D) → length (depth_ssp_map c) ≤ length c.sample
  unfolding depth_ssp_map
  length-depth_ssp_map c = omega (arith, length-add_samples c.eof_coef c.sample [])

pub get_elem?-some {κ} :
    {A : Type κ} (xs : List A) (i : ℕ) → i < length xs → (a : A) × (get_elem? xs i ≡ some a)
get_elem?-some [] i h = absurd (omega arith)
get_elem?-some (x ∷ xs) zero h = (x, refl)
get_elem?-some (x ∷ xs) (suc i) h = get_elem?-some xs i (omega arith)

-- How many numbers are written.
unfoldable pub numbers {ℓ} : {D : Type ℓ} → List (Token D) → ℕ
numbers [] = 0
numbers (number x ∷ ts) = suc (numbers ts)
numbers (_ ∷ ts) = numbers ts

module _ {ℓ} {D : Type ℓ} where
  pub numbers-append : (ts us : List (Token D)) → numbers (ts ++ us) ≡ numbers ts + numbers us
  unfolding numbers
  numbers-append [] us = omega arith
  numbers-append (number x ∷ ts) us = omega (arith, numbers-append ts us)
  numbers-append (str x ∷ ts) us = numbers-append ts us
  numbers-append (int x ∷ ts) us = numbers-append ts us
  numbers-append (fixed3 ∷ ts) us = numbers-append ts us
  numbers-append (endl ∷ ts) us = numbers-append ts us

pub cells : (a w k : ℕ) → k ≡ a → a + w * k ≡ a * (w + 1)
cells a w k e = rw e (grind arith)

pub bind-if {ℓ κ} :
    {A : Type ℓ} {B : Type κ} (b : Bool) (a : A) (f : A → Result B) {y : B}
    → f a ≡ ok y
    → ((if b then ok a else thrown) >>= f) ≡ (if b then ok y else thrown)
bind-if true a f e = e
bind-if false a f e = refl
