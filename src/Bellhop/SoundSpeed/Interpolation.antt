-- ===== src/Bellhop/SoundSpeed/Interpolation.antt =====
-- src/apps/iBellhop/iBellhop.cpp, get_ssp_value: which samples the sound speed at a depth comes from.
use netsim.Prelude.{
  ◌>>=◌, ℕ, suc, min, ◌≡◌, refl, sym, ap, ◌∙◌, ◌⊎◌, inl, inr, true, false, ◌&&◌, List, [], ◌∷◌,
  ◌++◌, any, All, some, length, if-true, if-false, Bool-cases, arith,
}
use netsim.Prelude.Floats.{Double, of_nat}
use netsim.Acoustics.{SspSample, WaterColumn, Environment}
use netsim.Acoustics.Profile.{add_eofs}
use netsim.Bellhop.SoundSpeed.{
  add_first_eofs, interpolate, find_ssp_value, get_ssp_value, first_column,
}

module _ {ℓ} {D : Type ℓ} ⦃d : Double D⦄ where
  -- The sound speed at a sample.
  unfoldable pub speed : List D → SspSample D → D
  speed coefs s = add_eofs s.cp s.eof coefs

  -- The line through two samples.
  unfoldable pub linear : List D → D → SspSample D → SspSample D → D
  linear coefs depth up dn = d.add (speed coefs up) (
      d.div (d.mul (d.sub depth up.depth) (d.sub (speed coefs dn) (speed coefs up)))
        (d.sub dn.depth up.depth))

  -- Two neighbours of a list.
  abbrev pub Neighbours : SspSample D → SspSample D → List (SspSample D) → Type ℓ
  Neighbours up dn samples =
      (before : List (SspSample D)) × (behind : List (SspSample D)) × (samples
        ≡ before ++ up ∷ dn ∷ behind)

  add_first_eofs_lem :
      (ssp : D) (eofs coefs : List D)
      → add_first_eofs (min (length eofs) (length coefs)) ssp eofs coefs
        ≡ some (add_eofs ssp eofs coefs)
  unfolding add_first_eofs add_eofs
  add_first_eofs_lem ssp [] coefs =
      ap (λ k. add_first_eofs k ssp [] coefs) {x = min 0 (length coefs)} {y = 0} (omega arith)
  add_first_eofs_lem ssp (e ∷ eofs) [] =
      ap (λ k. add_first_eofs k ssp (e ∷ eofs) []) {x = min (suc (length eofs)) 0} {y = 0}
        (omega arith)
  add_first_eofs_lem ssp (e ∷ eofs) (c ∷ coefs) =
      ap (λ k. add_first_eofs k ssp (e ∷ eofs) (c ∷ coefs))
        {x = min (suc (length eofs)) (suc (length coefs))}
        {y = suc (min (length eofs) (length coefs))} (omega arith)
      ∙ add_first_eofs_lem (d.add ssp (d.mul e c)) eofs coefs

  interpolate-linear :
      (coefs : List D) (depth : D) (up dn : SspSample D)
      → length up.eof ≡ length dn.eof
      → interpolate coefs depth up dn ≡ some (linear coefs depth up dn)
  unfolding interpolate linear speed
  interpolate-linear coefs depth up dn e = rw (e, add_first_eofs_lem dn.cp dn.eof coefs) refl

  find_ssp_value_lem :
      (coefs : List D) (depth : D) (n : ℕ) (s : SspSample D) (samples : List (SspSample D))
      → ((a b : D) → d.le a b ≡ false → d.le b a ≡ true)
      → All (λ t. length t.eof ≡ n) (s ∷ samples)
      → d.le s.depth depth ≡ true
      → ((up : SspSample D) × (dn : SspSample D) × Neighbours up dn (s ∷ samples)
          × (d.le up.depth depth ≡ true)
          × (d.le depth dn.depth ≡ true)
          × (find_ssp_value coefs depth (s ∷ samples) ≡ some (linear coefs depth up dn)))
        ⊎ ((any (λ t. d.le depth t.depth) samples ≡ false)
            × (find_ssp_value coefs depth (s ∷ samples) ≡ some (of_nat 0)))
  unfolding find_ssp_value
  find_ssp_value_lem coefs depth n s [] total eofs h = inr (refl, refl)
  find_ssp_value_lem coefs depth n s (t ∷ samples) total (es, (et, eofs)) h =
      let rest = find_ssp_value coefs depth (t ∷ samples) in
      elim (Bool-cases (d.le depth t.depth)) [
        | inl e ↦ inl (
          s,
          t,
          ([], samples, refl),
          h,
          e,
          if-true (d.le s.depth depth && d.le depth t.depth) (interpolate coefs depth s t) rest
                (ground arith)
              ∙ interpolate-linear coefs depth s t (es ∙ sym et),
        )
        | inr e ↦
            elim (find_ssp_value_lem coefs depth n t samples total (et, eofs)
              (total depth t.depth e)) [
                | inl (up, dn, (before, behind, l), hu, hd, v) ↦ inl (
                  up,
                  dn,
                  (s ∷ before, behind, ap (◌∷◌ s) l),
                  hu,
                  hd,
                  if-false (d.le s.depth depth && d.le depth t.depth) (interpolate coefs depth s t)
                        rest (ground arith)
                      ∙ v,
                )
                | inr (none_below, v) ↦ inr (
                  ground arith,
                  if-false (d.le s.depth depth && d.le depth t.depth) (interpolate coefs depth s t)
                        rest (ground arith)
                      ∙ v,
                )
              ]
      ]

  -- Let the samples of the first column have as many functions each, the first of them lie at the depth
  -- or above, and no NaN occur. Then get_ssp_value does not fault: there are neighbours with the depth
  -- between them, on whose line the sound speed lies, or no later sample is as deep, and it is 0.
  pub get_ssp_value_lem :
      (env : Environment D) (depth : D) (n : ℕ) (c : WaterColumn D) (s : SspSample D)
      (samples : List (SspSample D))
      → first_column env ≡ some c
      → c.sample ≡ s ∷ samples
      → ((a b : D) → d.le a b ≡ false → d.le b a ≡ true)
      → All (λ t. length t.eof ≡ n) (s ∷ samples)
      → d.le s.depth depth ≡ true
      → ((up : SspSample D) × (dn : SspSample D) × Neighbours up dn (s ∷ samples)
          × (d.le up.depth depth ≡ true)
          × (d.le depth dn.depth ≡ true)
          × (get_ssp_value env depth ≡ some (linear c.eof_coef depth up dn)))
        ⊎ ((any (λ t. d.le depth t.depth) samples ≡ false)
            × (get_ssp_value env depth ≡ some (of_nat 0)))
  unfolding get_ssp_value
  get_ssp_value_lem env depth n c s samples e l total eofs h =
      let value : get_ssp_value env depth ≡ find_ssp_value c.eof_coef depth (s ∷ samples) =
        ap (λ o. o >>= λ k. find_ssp_value k.eof_coef depth k.sample) e
        ∙ ap (find_ssp_value c.eof_coef depth) l in
      elim (find_ssp_value_lem c.eof_coef depth n s samples total eofs h) [
        | inl (up, dn, near, hu, hd, v) ↦ inl (up, dn, near, hu, hd, value ∙ v)
        | inr (above, v) ↦ inr (above, value ∙ v)
      ]
