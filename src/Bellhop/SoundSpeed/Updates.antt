-- ===== src/Bellhop/SoundSpeed/Updates.antt =====
-- src/apps/iBellhop/iBellhop.cpp, handle_ssp_update: what is known of a profile after an update.
use Prim.Native.String.{String}
use netsim.Prelude.{
  ◌>>=◌, ap-if, ℕ, suc, ◌≤◌, ◌≡◌, refl, sym, ap, subst, ◌∙◌, inl, inr, Bool-cases, Bool, true,
  false, not, ◌&&◌, List, [], ◌∷◌, map, Option, none, some, length, ◌==◌, if◌then◌else◌, if-true,
  if-false, arith,
}
use netsim.Prelude.Int.{leb_ℤ}
use netsim.Prelude.Floats.{Double, Ranked, of_nat}
use netsim.Prelude.Maps.{string_key}
use netsim.Acoustics.{SspSample, WaterColumn}
use netsim.Bellhop.{Libraries, IBellhop}
use netsim.Bellhop.SoundSpeed.{
  equal, set_sample, update_sample, update_samples, values, with_samples, first_column,
  handle_ssp_update,
}
use netsim.Bellhop.SoundSpeed.Sorting.{IsSorted, Sorts}
use netsim.Bellhop.SoundSpeed.Depths.{
  found_at, number_at, HasDistinctDepths, number_at-Shuffle, found_at-Shuffle,
}

module _ {ℓ} {A : Type ℓ} where
  if-over :
      (a b : Bool) (f : A → A) (x y w : A)
      → a ≡ b
      → f y ≡ x
      → (if a then x else w) ≡ (if a then f (if b then y else w) else if b then y else w)
  if-over true true f x y w e h = sym h
  if-over true false f x y w e h = absurd (ground (arith, e))
  if-over false true f x y w e h = absurd (ground (arith, e))
  if-over false false f x y w e h = refl

  if-swap :
      (a b : Bool) (f : A → A) (y w : A)
      → (a && b) ≡ false
      → (if b then y else if a then f w else w)
        ≡ (if a then f (if b then y else w) else if b then y else w)
  if-swap true true f y w e = absurd (ground arith)
  if-swap true false f y w e = refl
  if-swap false b f y w e = refl

module _ {ℓ} {D : Type ℓ} ⦃d : Double D⦄ where
  -- A new speed, with the old functions as zeros; a new sample has none.
  abbrev renewed : D → Option (D × List D) → Option (D × List D)
  renewed c old = some (c, elim old [ none ↦ [] | some (_, eof) ↦ map (λ _. of_nat 0) eof ])

  -- With the last speed that the lists give for a depth and zeros, if they give one, else as before.
  unfoldable pub given :
      Libraries D → List String → List String → D → Option (D × List D) → Option (D × List D)
  given lib [] speeds q old = old
  given lib (z ∷ depths) [] q old = old
  given lib (z ∷ depths) (c ∷ speeds) q old = given lib depths speeds q (
      if not (string_key.eqb c "0") && not (string_key.eqb c "")
      then (if equal q (lib.as_double z) then renewed (lib.as_double c) old else old)
      else old)

  module _ (r : Ranked d) where
    open r use {rank, le_rank}

    equal-eq : (a b : D) → equal a b ≡ (leb_ℤ (rank a) (rank b) && leb_ℤ (rank b) (rank a))
    equal-eq a b = rw (le_rank a b, le_rank b a) refl

    equal_same : (q z w : D) → equal z w ≡ true → equal q z ≡ equal q w
    equal_same q z w h = ground (arith, equal-eq q z, equal-eq q w, equal-eq z w)

    equal_apart : (q z w : D) → equal z w ≡ false → (equal q z && equal q w) ≡ false
    equal_apart q z w h = ground (arith, equal-eq q z, equal-eq q w, equal-eq z w)

    found_at-update_sample :
        (q z c : D) (samples : List (SspSample D))
        → found_at q (update_sample z c samples)
          ≡ (if equal q z then renewed c (found_at q samples) else found_at q samples)
    unfolding found_at update_sample set_sample
    found_at-update_sample q z c [] = refl
    found_at-update_sample q z c (s ∷ samples) =
        let rest = found_at q samples in
        elim (Bool-cases (equal z s.depth)) [
          | inl e ↦
              ap (found_at q) (if-true (equal z s.depth) _ (s ∷ update_sample z c samples) e)
              ∙ if-over (equal q z) (equal q s.depth) (renewed c)
                  (some (c, map (λ _. of_nat 0) s.eof)) (some (s.cp, s.eof)) rest
                  (equal_same q z s.depth e) refl
          | inr e ↦
              ap (found_at q) (if-false (equal z s.depth) (set_sample z c s ∷ samples) _ e)
              ∙ ap (λ o. if equal q s.depth then some (s.cp, s.eof) else o)
                  (found_at-update_sample q z c samples)
              ∙ if-swap (equal q z) (equal q s.depth) (renewed c) (some (s.cp, s.eof)) rest
                  (equal_apart q z s.depth e)
        ]

    found_at-update_samples :
        (lib : Libraries D) (q : D) (depths speeds : List String) (samples : List (SspSample D))
        → found_at q (update_samples lib depths speeds samples)
          ≡ given lib depths speeds q (found_at q samples)
    unfolding update_samples given
    found_at-update_samples lib q [] speeds samples = refl
    found_at-update_samples lib q (z ∷ depths) [] samples = refl
    found_at-update_samples lib q (z ∷ depths) (c ∷ speeds) samples =
        let set = not (string_key.eqb c "0") && not (string_key.eqb c "") in
        let z' = lib.as_double z in
        let c' = lib.as_double c in
        found_at-update_samples lib q depths speeds
          (if set then update_sample z' c' samples else samples)
        ∙ ap (given lib depths speeds q) (
            ap-if (found_at q) set (update_sample z' c' samples) samples
            ∙ ap (λ o. if set then o else found_at q samples)
                (found_at-update_sample q z' c' samples))

    number_at-update_sample :
        (q z c : D) (samples : List (SspSample D))
        → number_at q (update_sample z c samples)
          ≡ (if equal q z && number_at q samples == 0 then 1 else number_at q samples)
    unfolding number_at update_sample set_sample
    number_at-update_sample q z c [] = ground arith
    number_at-update_sample q z c (s ∷ samples) = elim (Bool-cases (equal z s.depth)) [
      | inl e ↦
          ap (number_at q) (if-true (equal z s.depth) _ (s ∷ update_sample z c samples) e)
          ∙ one_there (equal q z) (equal q s.depth) (number_at q samples) (equal_same q z s.depth e)
      | inr e ↦
          ap (number_at q) (if-false (equal z s.depth) (set_sample z c s ∷ samples) _ e)
          ∙ one_more (equal q z) (equal q s.depth) (number_at q samples) _
              (number_at-update_sample q z c samples) (equal_apart q z s.depth e)
    ]
      where
        one_there :
            (a b : Bool) (n : ℕ)
            → a ≡ b
            → (if a then suc n else n)
              ≡ (if a && (if b then suc n else n) == 0 then 1 else if b then suc n else n)
        one_there a b n e = ground (arith, e)

        one_more :
            (a b : Bool) (n n' : ℕ)
            → n' ≡ (if a && n == 0 then 1 else n)
            → (a && b) ≡ false
            → (if b then suc n' else n')
              ≡ (if a && (if b then suc n else n) == 0 then 1 else if b then suc n else n)
        one_more a b n n' e h = ground (arith, e, h)

    update_samples-HasDistinctDepths :
        (lib : Libraries D) (depths speeds : List String) (samples : List (SspSample D))
        → HasDistinctDepths samples
        → HasDistinctDepths (update_samples lib depths speeds samples)
    unfolding update_samples
    update_samples-HasDistinctDepths lib [] speeds samples h = h
    update_samples-HasDistinctDepths lib (z ∷ depths) [] samples h = h
    update_samples-HasDistinctDepths lib (z ∷ depths) (c ∷ speeds) samples h =
        update_samples-HasDistinctDepths lib depths speeds _
          (elim (not (string_key.eqb c "0") && not (string_key.eqb c ""))
            as (λ b.
              HasDistinctDepths (
                if b then update_sample (lib.as_double z) (lib.as_double c) samples else samples)) [
                  | true ↦ λ q. ground (
                    arith,
                    h q,
                    number_at-update_sample q (lib.as_double z) (lib.as_double c) samples,
                  )
                  | false ↦ h
                ])

  -- Let there be no NaN, no two samples of the profile with one depth, and as many speeds as depths in
  -- the message. Whatever `std::sort` does with samples of equal depth, an update of the profile comes
  -- to a profile in the order of the depths, in which each depth has one sample at most: with the last
  -- speed that the message gives for it, if it gives one that is not empty or 0, and as many zeros as
  -- functions as it had before, and otherwise as it was.
  pub handle_ssp_update_lem :
      Ranked d
      → (lib : Libraries D) (msg : String) (s : IBellhop D) (c : WaterColumn D) → Sorts lib
      → HasDistinctDepths c.sample
      → first_column s.cfg.initial_env ≡ some c
      → length (values lib msg "depth") ≡ length (values lib msg "c")
      → (samples : List (SspSample D)) × (handle_ssp_update lib msg s
          ≡ some (with_samples samples s))
        × IsSorted samples
        × HasDistinctDepths samples
        × ((q : D)
            → found_at q samples
              ≡ given lib (values lib msg "depth") (values lib msg "c") q (found_at q c.sample))
  unfolding handle_ssp_update
  handle_ssp_update_lem r lib msg s c sorts distinct e same =
      let depths = values lib msg "depth" in
      let speeds = values lib msg "c" in
      let updated = update_samples lib depths speeds c.sample in
      let one = update_samples-HasDistinctDepths r lib depths speeds c.sample distinct in
      let (sorted, perm) = sorts updated in
      (
        lib.sort_samples updated,
        if-false (not (length depths == length speeds)) (some s) _ (ground arith)
            ∙ ap
                (λ o. o >>= λ k.
                  some
                    (with_samples (lib.sort_samples (update_samples lib depths speeds k.sample)) s))
                e,
        sorted,
        λ q. subst (λ n. n ≤ 1) (number_at-Shuffle q perm) (one q),
        λ q.
            sym (found_at-Shuffle q perm (one q))
            ∙ found_at-update_samples r lib q depths speeds c.sample,
      )
