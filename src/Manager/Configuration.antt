-- ===== src/Manager/Configuration.antt =====
-- src/apps/netsim_manager/manager.cpp: the tables that an accepted configuration makes.
use netsim.Prelude.{
  none_or_some, some_inj, ◌≡◌, refl, sym, ap, ◌∙◌, subst, true, false, Bool-cases, inl, inr, not,
  List, [], ◌∷◌, Option, none, some, Option-cases, All, if-true, if-false, arith,
}
use netsim.Prelude.Int.{ℤ, eqb_ℤ, eqb_ℤ_iff}
use netsim.Prelude.Maps.{
  Map, lookup, contains, assign, int_key, lookup-assign, contains-eq-lookup, eqb_refl,
}
use netsim.Manager.{
  SimEnvironmentPair, EnvironmentBounds, NetSimManager, add_bounds, add_pairs,
  process_configuration,
}

-- The environment of each modem has bounds.
abbrev pub IsBounded {ℓ} : {D : Type ℓ} → NetSimManager D → Type 0
IsBounded s =
    (port : ℤ) (p : SimEnvironmentPair)
    → lookup port s.env_cfg ≡ some p
    → contains p.environment_id s.env_bounds ≡ true

-- A new key is not one that has an entry.
fresh_key {ℓ} :
    {V : Type ℓ} (k j : ℤ) (v : V) (m : Map ℤ V)
    → contains k m ≡ false
    → lookup j m ≡ some v
    → eqb_ℤ k j ≡ false
fresh_key k j v m new found = elim (Bool-cases (eqb_ℤ k j)) [
  | inr other ↦ other
  | inl same ↦
      let there : contains j m ≡ true = contains-eq-lookup j m ∙ rw found in
      absurd (ground (arith, there, subst (λ i. contains i m ≡ false) ((eqb_ℤ_iff k j).0 same) new))
]

-- What stays when a new key is added.
lookup-fresh {ℓ} :
    {V : Type ℓ} (k j : ℤ) (w v : V) (m : Map ℤ V)
    → contains k m ≡ false
    → lookup j m ≡ some v
    → lookup j (assign k w m) ≡ some v
lookup-fresh k j w v m new found = lookup-assign k j w m ∙ rw (fresh_key k j v m new found) found

lookup-new {ℓ} : {V : Type ℓ} (k : ℤ) (w : V) (m : Map ℤ V) → lookup k (assign k w m) ≡ some w
lookup-new k w m = lookup-assign k k w m ∙ rw (eqb_refl k)

module _ {ℓ} {D : Type ℓ} where
  IsBounded-assign :
      (p : SimEnvironmentPair) (s : NetSimManager D)
      → IsBounded s
      → contains p.environment_id s.env_bounds ≡ true
      → IsBounded (record s { env_cfg = assign p.modem_tcp_port p s.env_cfg })
  IsBounded-assign p s h there port q e =
      let e' = sym (lookup-assign p.modem_tcp_port port p s.env_cfg) ∙ e in
      elim (Bool-cases (eqb_ℤ p.modem_tcp_port port)) [
        | inl same ↦
            subst (λ r. contains r.environment_id s.env_bounds ≡ true)
              (some_inj (sym (if-true _ _ _ same) ∙ e')) there
        | inr other ↦ h port q (sym (if-false _ _ _ other) ∙ e')
      ]

  -- What a loop over pairs leaves.
  pub record Paired (ps : List SimEnvironmentPair) (s s' : NetSimManager D) : Type ℓ where
    pub same : s'.env_bounds ≡ s.env_bounds
    pub kept :
        (k : ℤ) (v : SimEnvironmentPair)
        → lookup k s.env_cfg ≡ some v
        → lookup k s'.env_cfg ≡ some v
    pub found : All (λ p. lookup p.modem_tcp_port s'.env_cfg ≡ some p) ps
    pub bounded : IsBounded s'

  add_pairs-Paired :
      (ps : List SimEnvironmentPair) (s s' : NetSimManager D)
      → add_pairs ps s ≡ some s'
      → IsBounded s
      → Paired ps s s'
  unfolding add_pairs
  add_pairs-Paired [] s s' ran h =
      subst (Paired [] s) (some_inj ran)
        (record { same = refl; kept = λ k v e. e; found = tt; bounded = h })
  add_pairs-Paired (p ∷ ps) s s' ran h =
      let s1 : NetSimManager D = record s { env_cfg = assign p.modem_tcp_port p s.env_cfg } in
      elim (Bool-cases (contains p.modem_tcp_port s.env_cfg)) [
        | inl twice ↦ none_or_some (sym (if-true _ _ _ twice) ∙ ran)
        | inr new ↦ elim (Bool-cases (contains p.environment_id s.env_bounds)) [
          | inr unbounded ↦
              none_or_some (sym (if-false _ _ _ new ∙ if-true _ _ _ (ap not unbounded)) ∙ ran)
          | inl there ↦
              let rest =
                add_pairs-Paired ps s1 s'
                  (sym (if-false _ _ _ new ∙ if-false _ _ _ (ap not there)) ∙ ran)
                  (IsBounded-assign p s h there) in
              record {
                same = rest.same;
                kept = λ k v e. rest.kept k v (lookup-fresh p.modem_tcp_port k p v s.env_cfg new e);
                found = (
                  rest.kept p.modem_tcp_port p (lookup-new p.modem_tcp_port p s.env_cfg),
                  rest.found,
                );
                bounded = rest.bounded;
              }
        ]
      ]

  -- What the loop over the bounds leaves.
  record Bounded (bs : List (EnvironmentBounds D)) (s s' : NetSimManager D) : Type ℓ where
    same : s'.env_cfg ≡ s.env_cfg
    kept :
        (k : ℤ) (b : EnvironmentBounds D)
        → lookup k s.env_bounds ≡ some b
        → lookup k s'.env_bounds ≡ some b
    found : All (λ b. lookup b.environment_id s'.env_bounds ≡ some b) bs

  add_bounds-Bounded :
      (bs : List (EnvironmentBounds D)) (s s' : NetSimManager D)
      → add_bounds bs s ≡ some s'
      → Bounded bs s s'
  unfolding add_bounds
  add_bounds-Bounded [] s s' ran =
      subst (Bounded [] s) (some_inj ran) (record { same = refl; kept = λ k b e. e; found = tt })
  add_bounds-Bounded (b ∷ bs) s s' ran =
      elim (Bool-cases (contains b.environment_id s.env_bounds)) [
        | inl twice ↦ none_or_some (sym (if-true _ _ _ twice) ∙ ran)
        | inr new ↦
            let s1 : NetSimManager D = record s {
              env_bounds = assign b.environment_id b s.env_bounds;
            } in
            let rest = add_bounds-Bounded bs s1 s' (sym (if-false _ _ _ new) ∙ ran) in
            record {
              same = rest.same;
              kept =
                  λ k v e. rest.kept k v (lookup-fresh b.environment_id k b v s.env_bounds new e);
              found = (
                rest.kept b.environment_id b (lookup-new b.environment_id b s.env_bounds),
                rest.found,
              );
            }
      ]

  configuration-eq :
      (bounds : List (EnvironmentBounds D)) (pairs : List SimEnvironmentPair)
      (r : Option (NetSimManager D))
      → add_bounds bounds (record { env_cfg = []; env_bounds = [] }) ≡ r
      → process_configuration bounds pairs ≡ elim r [ none ↦ none | some s ↦ add_pairs pairs s ]
  unfolding process_configuration
  configuration-eq bounds pairs r e =
      ap (λ o. elim o [ none ↦ none | some s ↦ add_pairs pairs s ]) e

  -- If a configuration is accepted, each modem and each environment of it is in the tables under its
  -- own key, and the environment of each modem has bounds.
  pub process_configuration-IsBounded :
      (bounds : List (EnvironmentBounds D)) (pairs : List SimEnvironmentPair) (s : NetSimManager D)
      → process_configuration bounds pairs ≡ some s
      → All (λ p. lookup p.modem_tcp_port s.env_cfg ≡ some p) pairs
        × All (λ b. lookup b.environment_id s.env_bounds ≡ some b) bounds
        × IsBounded s
  unfolding process_configuration lookup
  process_configuration-IsBounded bounds pairs s ran =
      elim (Option-cases (add_bounds bounds (record { env_cfg = []; env_bounds = [] }))) [
        | inl fatal ↦ none_or_some (sym (configuration-eq bounds pairs none fatal) ∙ ran)
        | inr (s1, bounded) ↦
            let b =
              add_bounds-Bounded bounds (record { env_cfg = []; env_bounds = [] }) s1 bounded in
            let p =
              add_pairs-Paired pairs s1 s
                (sym (configuration-eq bounds pairs (some s1) bounded) ∙ ran)
                (λ port q e. none_or_some (sym (ap (lookup port) b.same) ∙ e)) in
            (
              p.found,
              subst (λ m. All (λ b. lookup b.environment_id m ≡ some b) bounds) (sym p.same)
                  b.found,
              p.bounded,
            )
      ]
