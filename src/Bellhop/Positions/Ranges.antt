-- ===== src/Bellhop/Positions/Ranges.antt =====
-- src/apps/iBellhop/iBellhop.cpp, update_positions: what it comes to in each case.
use netsim.Prelude.{
  ◌≡◌, refl, sym, subst, ap, ◌∙◌, ◌⊎◌, inl, inr, Bool, true, false, not, ◌&&◌, List, [], Option,
  none, some, length, if◌then◌else◌, Bool-cases, if-true, if-false, if-same, ap-if, arith,
}
use netsim.Prelude.Floats.{Double, Cmath}
use netsim.Prelude.Maps.{lookup, string_key}
use netsim.Acoustics.{Environment}
use netsim.Bellhop.{Libraries, NodeReport, IBellhop, Act}
use netsim.Bellhop.Positions.{set_ranges, set_source_depth, place, extrapolate, update_positions}

module _ {ℓ} {D : Type ℓ} ⦃d : Double D⦄ ⦃f : Cmath D⦄ where
  set_source_depth_keeps {κ} :
      {E : Type κ} (p : Environment D → E) (depth : D) (env : Environment D)
      → p (record env { sources = record env.sources { first_depth = depth } }) ≡ p env
      → p (set_source_depth depth env) ≡ p env
  unfolding set_source_depth
  set_source_depth_keeps p depth env e =
      ap-if p env.adaptive_info.auto_source_depth
        (record env { sources = record env.sources { first_depth = depth } }) env
      ∙ ap (λ x. if env.adaptive_info.auto_source_depth then x else p env) e
      ∙ if-same env.adaptive_info.auto_source_depth (p env)

  first_depth-set_source_depth :
      (depth : D) (env : Environment D)
      → (set_source_depth depth env).sources.first_depth
        ≡ (if env.adaptive_info.auto_source_depth then depth else env.sources.first_depth)
  unfolding set_source_depth
  first_depth-set_source_depth depth env =
      ap-if (λ e. e.sources.first_depth) env.adaptive_info.auto_source_depth
        (record env { sources = record env.sources { first_depth = depth } }) env

  -- The environment with the ranges set.
  ranged : D → D → Environment D → Environment D
  ranged r future_r env = record env {
    receivers = record env.receivers {
      number_in_range = d.to_uint32 (
          f.ceil (
            d.div (d.abs (d.sub future_r r))
              (d.of_int env.adaptive_info.auto_receiver_ranges_delta)));
      first_range = if d.le r future_r then r else future_r;
      last_range = if d.le r future_r then future_r else r;
    };
  }

  set_ranges_keeps {κ} :
      {E : Type κ} (p : Environment D → E) (r future_r : D) (env : Environment D)
      → p (ranged r future_r env) ≡ p env
      → p (set_ranges r future_r env) ≡ p env
  unfolding set_ranges ranged
  set_ranges_keeps p r future_r env e =
      ap-if p env.adaptive_info.auto_receiver_ranges (ranged r future_r env) env
      ∙ ap (λ x. if env.adaptive_info.auto_receiver_ranges then x else p env) e
      ∙ if-same env.adaptive_info.auto_receiver_ranges (p env)

  le_sorted :
      ((a b : D) → d.le a b ≡ false → d.le b a ≡ true)
      → (a b : D) → d.le (if d.le a b then a else b) (if d.le a b then b else a) ≡ true
  le_sorted total a b = elim (Bool-cases (d.le a b)) [
    | inl e ↦ rw (e) e
    | inr e ↦ rw (e) (total a b e)
  ]

  ranges_sorted :
      (total : (a b : D) → d.le a b ≡ false → d.le b a ≡ true) (r future_r : D)
      (env : Environment D)
      → env.adaptive_info.auto_receiver_ranges ≡ true
      → d.le
          (set_ranges r future_r env).receivers.first_range
          (set_ranges r future_r env).receivers.last_range
        ≡ true
  unfolding set_ranges ranged
  ranges_sorted total r future_r env e =
      ap (λ e'. d.le e'.receivers.first_range e'.receivers.last_range)
        (if-true env.adaptive_info.auto_receiver_ranges (ranged r future_r env) env e)
      ∙ le_sorted total r future_r

  -- The ranges are in order, the depth of the source is set if it is to be, the water column stays.
  unfoldable pub IsPlaced : NodeReport D → Environment D → Environment D → Type ℓ
  IsPlaced other env env' =
      (d.le env'.receivers.first_range env'.receivers.last_range ≡ true)
      × (env'.sources.first_depth
          ≡ (if env.adaptive_info.auto_source_depth then other.depth else env.sources.first_depth))
      × (env'.water_column ≡ env.water_column)

  place-IsPlaced :
      ((a b : D) → d.le a b ≡ false → d.le b a ≡ true)
      → (lib : Libraries D) (self other : NodeReport D) (env : Environment D)
      → env.adaptive_info.auto_receiver_ranges ≡ true
      → IsPlaced other env (place lib self other env).1
  unfolding place IsPlaced ranged
  place-IsPlaced total lib self other env e =
      let env1 = set_source_depth other.depth env in
      (
        ranges_sorted total _ _ env1 (
            set_source_depth_keeps (λ x. x.adaptive_info.auto_receiver_ranges) other.depth env refl
            ∙ e),
        set_ranges_keeps (λ x. x.sources.first_depth) _ _ env1 refl
            ∙ first_depth-set_source_depth other.depth env,
        set_ranges_keeps (λ x. x.water_column) _ _ env1 refl
            ∙ set_source_depth_keeps (λ x. x.water_column) other.depth env refl,
      )

  depth-extrapolate :
      (on : Bool) (now : D) (nav : NodeReport D) → (extrapolate on now nav).depth ≡ nav.depth
  unfolding extrapolate
  depth-extrapolate on now nav =
      ap-if (λ (n : NodeReport D). n.depth) on _ nav ∙ if-same on nav.depth

  -- Both reports are there and the positions are set, or one is missing and nothing is changed or
  -- published.
  unfoldable pub Outcome : IBellhop D → Environment D → Bool × Environment D × List (Act D) → Type ℓ
  Outcome s env result =
      ((result.0 ≡ true)
        × (length result.2 ≡ 3)
        × ((other : NodeReport D) × (self : NodeReport D) × (lookup env.adaptive_info.contact
                s.node_reports
              ≡ some other)
            × (lookup env.adaptive_info.ownship s.node_reports ≡ some self)
            × IsPlaced other env result.1))
      ⊎ ((result ≡ (false, env, []))
          × ((lookup env.adaptive_info.contact s.node_reports ≡ none)
              ⊎ (lookup env.adaptive_info.ownship s.node_reports ≡ none)))

  outcome :
      (lib : Libraries D) (now : D) (s : IBellhop D) (env : Environment D)
      → ((a b : D) → d.le a b ≡ false → d.le b a ≡ true)
      → env.adaptive_info.auto_receiver_ranges ≡ true
      → (contact own : Option (NodeReport D))
      → lookup env.adaptive_info.contact s.node_reports ≡ contact
      → lookup env.adaptive_info.ownship s.node_reports ≡ own
      → Outcome s env (elim contact as (λ _. Bool × Environment D × List (Act D)) [
        | none ↦ (false, env, [])
        | some other ↦ elim own as (λ _. Bool × Environment D × List (Act D)) [
          | none ↦ (false, env, [])
          | some self ↦ place lib self (extrapolate s.cfg.extrapolate_nav now other) env
        ]
      ])
  unfolding Outcome place IsPlaced
  outcome lib now s env total auto none own e e' = inr (refl, inl e)
  outcome lib now s env total auto (some other) none e e' = inr (refl, inr e')
  outcome lib now s env total auto (some other) (some self) e e' =
      let moved = extrapolate s.cfg.extrapolate_nav now other in
      let (sorted, depth, column) = place-IsPlaced total lib self moved env auto in
      let at_depth =
        λ (z : D). if env.adaptive_info.auto_source_depth then z else env.sources.first_depth in
      inl (
        refl,
        refl,
        (
          other,
          self,
          e,
          e',
          (sorted, depth ∙ ap at_depth (depth-extrapolate s.cfg.extrapolate_nav now other), column),
        ),
      )

  -- If the ranges are to be set and no NaN occurs, update_positions fails exactly if there is no report of
  -- the contact or none of the own ship, and then nothing is changed or published; else the range of the
  -- first receiver is at most that of the last, the depth of the source is that of the contact if it is to
  -- be set, the water column stays, and three values are published.
  pub update_positions_lem :
      (lib : Libraries D) (now : D) (s : IBellhop D) (env : Environment D)
      → ((a b : D) → d.le a b ≡ false → d.le b a ≡ true)
      → env.adaptive_info.auto_receiver_ranges ≡ true
      → Outcome s env (update_positions lib now s env)
  unfolding update_positions
  update_positions_lem lib now s env total auto =
      subst (Outcome s env)
        (sym (
          if-false
            (not env.adaptive_info.auto_receiver_ranges && not env.adaptive_info.auto_source_depth)
            (true, env, []) _ (ground arith)))
        (outcome lib now s env total auto (lookup env.adaptive_info.contact s.node_reports)
          (lookup env.adaptive_info.ownship s.node_reports) refl refl)
