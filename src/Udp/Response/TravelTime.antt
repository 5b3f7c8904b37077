-- ===== src/Udp/Response/TravelTime.antt =====
-- src/apps/netsim_udp/main.cpp: which delay `travel_time` returns.
use netsim.Prelude.{
  ◌≡◌, refl, ap, Bool, true, false, Bool-cases, inl, inr, List, [], ◌∷◌, ◌++◌, Option, none, some,
  All, ◌⊎◌, arith,
}
use netsim.Prelude.Floats.{Double, Ranked, of_nat}
use netsim.Udp.Response.{RayTrace, strongest, travel_time}

abbrev NonEmpty {ℓ} : {A : Type ℓ} → List A → Type 0
NonEmpty [] = ⊥
NonEmpty (_ ∷ _) = Unit

-- The ray has an array element.
abbrev pub HasElement {ℓ} : {D : Type ℓ} → RayTrace D → Type 0
HasElement r = NonEmpty r.element

module _ {ℓ} {D : Type ℓ} ⦃d : Double D⦄ where
  first_of : (xs : List D) → NonEmpty xs → (x : D) × (rest : List D) × (xs ≡ x ∷ rest)
  first_of [] h = absurd h
  first_of (x ∷ rest) h = (x, rest, refl)

  -- The amplitude of a ray is above that of the rays so far.
  abbrev louder : D → RayTrace D → Bool
  louder max_amp r = d.lt max_amp (d.abs r.amplitude)

  -- No ray is louder.
  abbrev NoneLouder : D → List (RayTrace D) → Type 0
  NoneLouder max_amp rays = All (λ r. louder max_amp r ≡ false) rays

  -- The delay `t` is that of the first of the loudest rays, which is louder than `max_amp`.
  abbrev pub Loudest : D → List (RayTrace D) → D → Type ℓ
  Loudest max_amp rays t =
      (before : List (RayTrace D)) × (r : RayTrace D) × (behind : List (RayTrace D)) × (rest : List
        D)
      × (rays ≡ before ++ r ∷ behind)
      × (r.element ≡ t ∷ rest)
      × (louder max_amp r ≡ true)
      × All (λ s. d.lt (d.abs s.amplitude) (d.abs r.amplitude) ≡ true) before
      × NoneLouder (d.abs r.amplitude) behind

  -- The delay of the loudest ray, if one is louder than `max_amp`, else the delay so far.
  abbrev pub Found : D → Option D → List (RayTrace D) → Option D → Type ℓ
  Found max_amp delay rays result =
      (NoneLouder max_amp rays × (result ≡ delay))
      ⊎ ((t : D) × (result ≡ some t) × Loudest max_amp rays t)

  module _ (ranked : Ranked d) where
    between : (a b c : D) → d.lt a b ≡ true → d.lt b c ≡ true → d.lt a c ≡ true
    between a b c h h' = ground (arith, ranked.lt_rank a b, ranked.lt_rank b c, ranked.lt_rank a c)

    below : (a b c : D) → d.lt a b ≡ false → d.lt a c ≡ true → d.lt b c ≡ true
    below a b c h h' = ground (arith, ranked.lt_rank a b, ranked.lt_rank b c, ranked.lt_rank a c)

    strongest-Found :
        (max_amp : D) (delay : Option D) (rays : List (RayTrace D))
        → All HasElement rays
        → (result : Option D) × (strongest max_amp delay rays ≡ some result)
          × Found max_amp delay rays result
    unfolding strongest
    strongest-Found max_amp delay [] h = (delay, refl, inl (tt, refl))
    strongest-Found max_amp delay (r ∷ rs) h = elim (Bool-cases (louder max_amp r)) [
      | inl more ↦
          let (x, rest, e) = first_of r.element h.0 in
          let (result, found, which) = strongest-Found (d.abs r.amplitude) (some x) rs h.1 in
          (
            result,
            rw (strongest, more) (rw e found),
            inr (elim which [
              | inl (none_louder, is) ↦ (x, is, ([], r, rs, rest, refl, e, more, tt, none_louder))
              | inr (t, is, (before, s, behind, rest', split, at, above, quieter, last)) ↦ (
                t,
                is,
                (
                  r ∷ before,
                  s,
                  behind,
                  rest',
                  ap (λ l. r ∷ l) split,
                  at,
                  between max_amp (d.abs r.amplitude) (d.abs s.amplitude) more above,
                  (above, quieter),
                  last,
                ),
              )
            ]),
          )
      | inr less ↦
          let (result, found, which) = strongest-Found max_amp delay rs h.1 in
          (
            result,
            rw (strongest, less) found,
            elim which [
              | inl (none_louder, is) ↦ inl ((less, none_louder), is)
              | inr (t, is, (before, s, behind, rest', split, at, above, quieter, last)) ↦ inr (
                t,
                is,
                (
                  r ∷ before,
                  s,
                  behind,
                  rest',
                  ap (λ l. r ∷ l) split,
                  at,
                  above,
                  (below max_amp (d.abs r.amplitude) (d.abs s.amplitude) less above, quieter),
                  last,
                ),
              )
            ],
          )
    ]

    -- With elements in all rays and no NaN, `travel_time` returns the delay of the first element of the
    -- first of the loudest rays, whatever its bounces: a ray with an amplitude above zero, louder
    -- than all before it, and not quieter than any behind it. If no ray has an amplitude above zero, it
    -- returns an indeterminate value.
    pub travel_time_lem :
        (rays : List (RayTrace D))
        → All HasElement rays
        → (result : Option D) × (travel_time rays ≡ some result) × Found (of_nat 0) none rays result
    unfolding travel_time
    travel_time_lem rays h = strongest-Found (of_nat 0) none rays h
