-- ===== src/Bellhop/SoundSpeed/Depths.antt =====
-- src/apps/iBellhop/iBellhop.cpp: what a profile has at a depth, in whatever order its samples are.
use netsim.Prelude.{
  ℕ, suc, ◌≤◌, ◌≡◌, refl, ap, subst, ◌∙◌, Bool, true, false, ◌&&◌, List, [], ◌∷◌, Option, none,
  some, if◌then◌else◌, arith,
}
use netsim.Prelude.Floats.{Double}
use netsim.Acoustics.{SspSample}
use netsim.Bellhop.SoundSpeed.{equal}
use netsim.Bellhop.SoundSpeed.Sorting.{Shuffle}

module _ {ℓ} {A : Type ℓ} where
  if-exchange :
      (a b : Bool) (x y w : A)
      → (a && b) ≡ false
      → (if a then x else if b then y else w) ≡ (if b then y else if a then x else w)
  if-exchange true true x y w e = absurd (ground arith)
  if-exchange true false x y w e = refl
  if-exchange false b x y w e = refl

module _ {ℓ} {D : Type ℓ} ⦃d : Double D⦄ where
  -- The speed and the functions of the first sample at a depth.
  unfoldable pub found_at : D → List (SspSample D) → Option (D × List D)
  found_at q [] = none
  found_at q (s ∷ samples) =
      let rest = found_at q samples in if equal q s.depth then some (s.cp, s.eof) else rest

  -- How many samples a depth has.
  unfoldable pub number_at : D → List (SspSample D) → ℕ
  number_at q [] = 0
  number_at q (s ∷ samples) =
      let rest = number_at q samples in if equal q s.depth then suc rest else rest

  abbrev pub HasDistinctDepths : List (SspSample D) → Type ℓ
  HasDistinctDepths samples = (q : D) → number_at q samples ≤ 1

  pub number_at-Shuffle :
      (q : D) {xs ys : List (SspSample D)} → Shuffle xs ys → number_at q xs ≡ number_at q ys
  unfolding number_at
  number_at-Shuffle q Shuffle.nil = refl
  number_at-Shuffle q (Shuffle.cons {a = a} p) =
      ap (λ n. if equal q a.depth then suc n else n) (number_at-Shuffle q p)
  number_at-Shuffle q (Shuffle.swap {a = a} {b = b} {xs = l}) =
      if-both (equal q a.depth) (equal q b.depth) (number_at q l)
    where
      if-both :
          (a b : Bool) (n : ℕ)
          → (if a then suc (if b then suc n else n) else if b then suc n else n)
            ≡ (if b then suc (if a then suc n else n) else if a then suc n else n)
      if-both a b n = ground arith
  number_at-Shuffle q (Shuffle.trans p p') = number_at-Shuffle q p ∙ number_at-Shuffle q p'

  -- Samples of different depths are found in whatever order they are.
  pub found_at-Shuffle :
      (q : D) {xs ys : List (SspSample D)}
      → Shuffle xs ys
      → number_at q xs ≤ 1
      → found_at q xs ≡ found_at q ys
  unfolding number_at found_at
  found_at-Shuffle q Shuffle.nil h = refl
  found_at-Shuffle q (Shuffle.cons {a = a} p) h =
      ap (λ o. if equal q a.depth then some (a.cp, a.eof) else o)
        (found_at-Shuffle q p (ground (arith, h)))
  found_at-Shuffle q (Shuffle.swap {a = a} {b = b} {xs = l}) h =
      if-exchange (equal q a.depth) (equal q b.depth) (some (a.cp, a.eof)) (some (b.cp, b.eof))
        (found_at q l) (ground (arith, h))
  found_at-Shuffle q (Shuffle.trans p p') h =
      found_at-Shuffle q p h ∙ found_at-Shuffle q p' (subst (λ n. n ≤ 1) (number_at-Shuffle q p) h)
