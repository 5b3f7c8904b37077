-- ===== src/Manager/Updates.antt =====
-- src/apps/netsim_manager/manager.cpp: which of the updates of a request are passed on.
use netsim.Prelude.{
  ◌≡◌, refl, Bool, true, false, Bool-cases, inl, inr, not, List, [], ◌∷◌, ◌++◌, map, Option, none,
  some, Option-cases, if◌then◌else◌, arith, flatten,
}
use netsim.Prelude.Floats.{Double}
use netsim.Prelude.Maps.{lookup, int_key, contains-eq-lookup}
use netsim.Prelude.Text.{Text, text_key}
use netsim.Manager.{
  EnvironmentBounds, NavUpdate, Status, update_accepted, update_failed_invalid_modem_tcp_port,
  update_failed_invalid_source_address, update_failed_out_of_defined_region, Publication,
  env_nav_update, gps_line, receive_stats, response, NetSimManagerRequest, NetSimManager,
  out_of_region, update_all, process_request,
}
use netsim.Manager.Configuration.{IsBounded}

abbrev pub is_accepted : Status → Bool
is_accepted update_accepted = true
is_accepted update_failed_invalid_modem_tcp_port = false
is_accepted update_failed_invalid_source_address = false
is_accepted update_failed_out_of_defined_region = false

module _ {ℓ} {D : Type ℓ} ⦃d : Double D⦄ where
  -- The position is in the bounds of the environment.
  unfoldable pub in_bounds : Option (EnvironmentBounds D) → NavUpdate D → Bool
  in_bounds none nav = false
  in_bounds (some b) nav = not (out_of_region b nav)

  -- The answer to a single update from an address: that of the first test that fails.
  unfoldable pub verdict : Text → NetSimManager D → NavUpdate D → Status
  verdict address s nav = elim (lookup nav.modem_tcp_port s.env_cfg) [
    | none ↦ update_failed_invalid_modem_tcp_port
    | some p ↦
        if not (text_key.eqb address p.endpoint_ip_address)
        then update_failed_invalid_source_address
        else if in_bounds (lookup p.environment_id s.env_bounds) nav
        then update_accepted
        else update_failed_out_of_defined_region
  ]

  -- The updates before the first one that is not accepted.
  unfoldable pub accepted : Text → NetSimManager D → List (NavUpdate D) → List (NavUpdate D)
  accepted address s [] = []
  accepted address s (nav ∷ navs) =
      let rest = accepted address s navs in
      if is_accepted (verdict address s nav) then nav ∷ rest else []

  -- The answer to the first update that is not accepted, if there is one.
  unfoldable pub answer : Text → NetSimManager D → List (NavUpdate D) → Status
  answer address s [] = update_accepted
  answer address s (nav ∷ navs) =
      let rest = answer address s navs in
      if is_accepted (verdict address s nav) then rest else verdict address s nav

  -- What is published of an update: nothing if a required field is missing.
  unfoldable pub passed_on : NetSimManager D → NavUpdate D → List (Publication D)
  passed_on s nav = elim (lookup nav.modem_tcp_port s.env_cfg) [
    | none ↦ []
    | some p ↦
        if nav.is_initialized then env_nav_update p.environment_id nav ∷ gps_line nav ∷ [] else []
  ]

  -- What the loop does, in terms of the verdicts.
  abbrev Passes : Text → List (NavUpdate D) → NetSimManager D → Type ℓ
  Passes address navs s =
      update_all address navs s
      ≡ some (answer address s navs, flatten (map (passed_on s) (accepted address s navs)))

  refused :
      (address : Text) (nav : NavUpdate D) (navs : List (NavUpdate D)) (s : NetSimManager D)
      (v : Status)
      → verdict address s nav ≡ v
      → is_accepted v ≡ false
      → update_all address (nav ∷ navs) s ≡ some (v, [])
      → Passes address (nav ∷ navs) s
  unfolding answer accepted
  refused address nav navs s v is bad ran = rw (answer, accepted, is) (rw bad ran)

  taken_on :
      (address : Text) (nav : NavUpdate D) (navs : List (NavUpdate D)) (s : NetSimManager D)
      → verdict address s nav ≡ update_accepted
      → (update_all address (nav ∷ navs) s
          ≡ some (
            answer address s navs,
            passed_on s nav ++ flatten (map (passed_on s) (accepted address s navs)),
          ))
      → Passes address (nav ∷ navs) s
  unfolding answer accepted
  taken_on address nav navs s is ran = rw (answer, accepted, is) ran

  update_all-passed_on :
      (address : Text) (navs : List (NavUpdate D)) (s : NetSimManager D)
      → IsBounded s
      → Passes address navs s
  unfolding update_all answer accepted verdict in_bounds passed_on
  update_all-passed_on address [] s h = refl
  update_all-passed_on address (nav ∷ navs) s h =
      let ih = update_all-passed_on address navs s h in
      elim (Option-cases (lookup nav.modem_tcp_port s.env_cfg)) [
        | inl unknown ↦
            refused address nav navs s update_failed_invalid_modem_tcp_port (rw (verdict, unknown))
              refl (rw (update_all, unknown))
        | inr (p, known) ↦ elim (Bool-cases (text_key.eqb address p.endpoint_ip_address)) [
          | inr stranger ↦
              refused address nav navs s update_failed_invalid_source_address
                (rw (verdict, known) (rw stranger)) refl (rw (update_all, known) (rw stranger))
          | inl same ↦ elim (Option-cases (lookup p.environment_id s.env_bounds)) [
            | inl unbounded ↦ absurd (
                ground (
                  arith,
                  contains-eq-lookup p.environment_id s.env_bounds,
                  unbounded,
                  h nav.modem_tcp_port p known,
                ))
            | inr (b, bounds) ↦ elim (Bool-cases (out_of_region b nav)) [
              | inl out ↦
                  refused address nav navs s update_failed_out_of_defined_region
                    (rw (verdict, known) (rw (same, bounds) (rw (in_bounds, out)))) refl
                    (rw (update_all, known) (rw (same, bounds) (rw out)))
              | inr inside ↦
                  taken_on address nav navs s
                    (rw (verdict, known) (rw (same, bounds) (rw (in_bounds, inside))))
                    (rw (update_all, passed_on, known) (rw (same, bounds) (rw (inside) (rw ih))))
            ]
          ]
        ]
      ]

  -- With bounds for the environment of each modem a request throws nothing. The updates before the
  -- first one that a test refuses are passed on in order, those without a required field left out,
  -- and none behind it; the statistics are published in any case; the last message is the one
  -- response, with the request's id and the answer to the refused update, or accepted.
  pub process_request-passed_on :
      (req : NetSimManagerRequest D) (address : Text) (s : NetSimManager D)
      → IsBounded s
      → process_request req address s
        ≡ some (
            flatten (map (passed_on s) (accepted address s req.nav))
            ++ map receive_stats req.stats
            ++ response req.id (answer address s req.nav) ∷ [])
  unfolding process_request
  process_request-passed_on req address s h =
      rw (process_request, update_all-passed_on address req.nav s h)
