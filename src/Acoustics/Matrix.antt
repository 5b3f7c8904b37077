-- ===== src/Acoustics/Matrix.antt =====
-- src/lib/acousticstoolbox/environment.cpp, output_env: the matrix of sound speeds in the .ssp file.
use netsim.Prelude.{
  ℕ, zero, suc, ◌+◌, ◌-◌, ◌≤◌, ◌<◌, ◌≡◌, refl, sym, ap, ◌∙◌, Bool, true, false, not, ◌&&◌, List, [],
  ◌∷◌, ◌++◌, map, some, length, get_elem?, drop, replicate, ◌==◌, if◌then◌else◌, if-true, if-false,
  arith, append_assoc, length-replicate,
}
use netsim.Prelude.Int.{ℤ, eqb_ℤ}
use netsim.Prelude.Floats.{Double}
use netsim.Acoustics.{WaterColumn}
use netsim.Acoustics.Profile.{
  Result, ok, thrown, undefined, store, back, depth_ssp_map, fill_row, matrix_row,
}

-- `aligned grid m`: the depths of `m` are those of the grid, as whole numbers, except perhaps the last.
module _ {ℓ} {D : Type ℓ} ⦃d : Double D⦄ where
  unfoldable pub aligned : List ℤ → List (D × D) → Bool
  aligned grid [] = true
  aligned [] (p ∷ m) = false
  aligned (g ∷ grid) ((z, c) ∷ []) = true
  aligned (g ∷ grid) ((z, c) ∷ p ∷ m) = eqb_ℤ (d.trunc z) g && aligned grid (p ∷ m)

  -- The speeds of a profile over the first elements of a row.
  unfoldable pub overlay : List (D × D) → List D → List D
  overlay [] row = row
  overlay ((z, c) ∷ m) [] = []
  overlay ((z, c) ∷ m) (x ∷ row) = c ∷ overlay m row

  overlay_lem :
      (m : List (D × D)) (row : List D)
      → length m ≤ length row
      → overlay m row ≡ map (λ p. p.1) m ++ drop (length m) row
  unfolding overlay
  overlay_lem [] row h = refl
  overlay_lem ((z, c) ∷ m) [] h = absurd (omega arith)
  overlay_lem ((z, c) ∷ m) (x ∷ row) h = ap (◌∷◌ c) (overlay_lem m row (omega arith))

module _ {ℓ} {A : Type ℓ} where
  if-if_true : (b c : Bool) (x y : A) → c ≡ true → (if b then (if c then x else y) else x) ≡ x
  if-if_true true c x y e = if-true c x y e
  if-if_true false c x y e = refl

  if-if_false :
      (b c : Bool) (x y : A)
      → c ≡ false
      → (if not b then (if c then x else y) else x) ≡ (if b then x else y)
  if-if_false true c x y e = refl
  if-if_false false c x y e = if-false c x y e

  if-and :
      (b c : Bool) (x y : A) → (if b then (if c then x else y) else y) ≡ (if b && c then x else y)
  if-and true c x y = refl
  if-and false c x y = refl

get_elem?-append_middle {ℓ} :
    {A : Type ℓ} (xs ys : List A) (a : A) (i : ℕ)
    → length xs ≡ i
    → get_elem? (xs ++ a ∷ ys) i ≡ some a
get_elem?-append_middle [] ys a zero h = refl
get_elem?-append_middle [] ys a (suc i) h = absurd (omega arith)
get_elem?-append_middle (x ∷ xs) ys a zero h = absurd (omega arith)
get_elem?-append_middle (x ∷ xs) ys a (suc i) h = get_elem?-append_middle xs ys a i (omega arith)

store-append_middle {ℓ} :
    {A : Type ℓ} (xs ys : List A) (a b : A) (i : ℕ)
    → length xs ≡ i
    → store (xs ++ a ∷ ys) i b ≡ ok (xs ++ b ∷ ys)
unfolding store
store-append_middle [] ys a b zero h = refl
store-append_middle [] ys a b (suc i) h = absurd (omega arith)
store-append_middle (x ∷ xs) ys a b zero h = absurd (omega arith)
store-append_middle (x ∷ xs) ys a b (suc i) h =
    rw (store-append_middle xs ys a b i (omega arith)) refl

length-append_one {ℓ} : {A : Type ℓ} (xs : List A) (a : A) → length (xs ++ a ∷ []) ≡ length xs + 1
length-append_one [] a = omega arith
length-append_one (x ∷ xs) a = omega (arith, length-append_one xs a)

module _ {ℓ} {D : Type ℓ} ⦃d : Double D⦄ where
  fill_row-step :
      (grid : List ℤ) (size i : ℕ) (z c : D) (m : List (D × D)) (row row' : List D) (g : ℤ)
      → get_elem? grid i ≡ some g
      → store row i c ≡ ok row'
      → fill_row grid size i ((z, c) ∷ m) row ≡ (
          let put = fill_row grid size (i + 1) m row' in
          if not (eqb_ℤ (d.trunc z) g) then (if i == size - 1 then put else thrown) else put)
  unfolding fill_row
  fill_row-step grid size i z c m row row' g e e' = rw (e, e') refl

  fill_row-nil : (grid : List ℤ) (size i : ℕ) (row : List D) → fill_row grid size i [] row ≡ ok row
  unfolding fill_row
  fill_row-nil grid size i row = refl

  fill_row-prefix :
      (ds grid : List ℤ) (size i : ℕ) (m : List (D × D)) (rs row : List D)
      → length ds ≡ i
      → length rs ≡ i
      → size ≡ i + length m
      → length m ≤ length grid
      → length m ≤ length row
      → fill_row (ds ++ grid) size i m (rs ++ row)
        ≡ (if aligned grid m then ok (rs ++ overlay m row) else thrown)
  unfolding aligned overlay
  fill_row-prefix ds grid size i [] rs row h h' s l l' =
      fill_row-nil (ds ++ grid) size i (rs ++ row)
  fill_row-prefix ds [] size i (p ∷ m) rs row h h' s l l' = absurd (omega arith)
  fill_row-prefix ds (g ∷ grid) size i (p ∷ m) rs [] h h' s l l' = absurd (omega arith)
  fill_row-prefix ds (g ∷ grid) size i ((z, c) ∷ []) rs (x ∷ row) h h' s l l' =
      let put = fill_row (ds ++ g ∷ grid) size (i + 1) [] (rs ++ c ∷ row) in
      fill_row-step (ds ++ g ∷ grid) size i z c [] (rs ++ x ∷ row) (rs ++ c ∷ row) g
        (get_elem?-append_middle ds grid g i h) (store-append_middle rs row x c i h')
      ∙ if-if_true (not (eqb_ℤ (d.trunc z) g)) (i == size - 1) put thrown (ground arith)
      ∙ fill_row-nil (ds ++ g ∷ grid) size (i + 1) (rs ++ c ∷ row)
  fill_row-prefix ds (g ∷ grid) size i ((z, c) ∷ p ∷ m) rs (x ∷ row) h h' s l l' =
      let put = fill_row (ds ++ g ∷ grid) size (i + 1) (p ∷ m) (rs ++ c ∷ row) in
      let same = eqb_ℤ (d.trunc z) g in
      let rest : put
          ≡ (if aligned grid (p ∷ m) then ok (rs ++ c ∷ overlay (p ∷ m) row) else thrown) =
        ap (λ ls. fill_row ls size (i + 1) (p ∷ m) (rs ++ c ∷ row))
          (sym (append_assoc ds (g ∷ []) grid))
        ∙ ap (λ ls. fill_row ((ds ++ g ∷ []) ++ grid) size (i + 1) (p ∷ m) ls)
            (sym (append_assoc rs (c ∷ []) row))
        ∙ fill_row-prefix (ds ++ g ∷ []) grid size (i + 1) (p ∷ m) (rs ++ c ∷ []) row
            (omega (arith, length-append_one ds g)) (omega (arith, length-append_one rs c))
            (omega arith) (omega arith) (omega arith)
        ∙ ap (λ ls. if aligned grid (p ∷ m) then ok ls else thrown)
            (append_assoc rs (c ∷ []) (overlay (p ∷ m) row)) in
      fill_row-step (ds ++ g ∷ grid) size i z c (p ∷ m) (rs ++ x ∷ row) (rs ++ c ∷ row) g
        (get_elem?-append_middle ds grid g i h) (store-append_middle rs row x c i h')
      ∙ if-if_false same (i == size - 1) put thrown (ground arith)
      ∙ ap (λ r. if same then r else thrown) rest
      ∙ if-and same (aligned grid (p ∷ m)) (ok (rs ++ c ∷ overlay (p ∷ m) row)) thrown

  -- What the row of a profile is meant to be: its speeds, and then the deepest of them up to the width.
  unfoldable pub padded : ℕ → List (D × D) → List D
  padded width [] = []
  padded width (p ∷ m) =
      map (λ q. q.1) (p ∷ m) ++ drop (length (p ∷ m)) (replicate width (back p m).1)

  -- If a water column has samples, at not more depths than the grid and the width of the matrix, its row
  -- is computed: the speeds of its profile, and then the deepest of them up to the width, exactly if its
  -- depths are those of the grid as whole numbers, except perhaps the last; else the exception is thrown.
  pub matrix_row_lem :
      (grid : List ℤ) (width : ℕ) (column : WaterColumn D)
      → 0 < length (depth_ssp_map column)
      → length (depth_ssp_map column) ≤ length grid
      → length (depth_ssp_map column) ≤ width
      → matrix_row grid width column ≡ (
          if aligned grid (depth_ssp_map column)
          then ok (padded width (depth_ssp_map column))
          else thrown)
  unfolding matrix_row padded
  matrix_row_lem grid width column = profile_row (depth_ssp_map column)
    where
      profile_row :
          (m : List (D × D))
          → 0 < length m
          → length m ≤ length grid
          → length m ≤ width
          → (elim m as (λ _. Result (List D)) [
            | [] ↦ undefined
            | p ∷ m ↦ fill_row grid (suc (length m)) 0 (p ∷ m) (replicate width (back p m).1)
          ])
            ≡ (if aligned grid m then ok (padded width m) else thrown)
      profile_row [] h l l' = absurd (omega arith)
      profile_row (p ∷ m) h l l' =
          let row = replicate width (back p m).1 in
          fill_row-prefix [] grid (suc (length m)) 0 (p ∷ m) [] row refl refl (omega arith) l
            (omega (arith, length-replicate width (back p m).1))
          ∙ ap (λ r. if aligned grid (p ∷ m) then ok r else thrown)
              (overlay_lem (p ∷ m) row (omega (arith, length-replicate width (back p m).1)))
