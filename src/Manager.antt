-- ===== src/Manager.antt =====
-- src/apps/netsim_manager/manager.cpp: `NetSimManager`, which checks the positions that vehicle
-- simulators send and adds the environment to the requests of the other programs. `none` is a fatal
-- error of the configuration, which ends the program, or an exception of `std::map::at`.
pub mod Configuration
pub mod Updates
pub mod Requests
pub mod Gps
mod Examples
use netsim.Prelude.{
  ℕ, Bool, true, false, ◌||◌, not, List, [], ◌∷◌, ◌++◌, map, Option, none, some, if◌then◌else◌,
}
use netsim.Prelude.Int.{ℤ}
use netsim.Prelude.Floats.{Double}
use netsim.Prelude.Maps.{Map, lookup, contains, assign, int_key}
use netsim.Prelude.Text.{Text, text_key}

pub record SimEnvironmentPair : Type 0 where
  pub modem_tcp_port : ℤ
  pub endpoint_ip_address : Text
  pub environment_id : ℤ

pub record EnvironmentBounds {ℓ} (D : Type ℓ) : Type ℓ where
  pub environment_id : ℤ
  pub lat_min : D
  pub lon_min : D
  pub lat_max : D
  pub lon_max : D
  pub depth_min : D
  pub depth_max : D

-- `is_initialized` tells whether all required fields were in the message; the others read as 0.
pub record NavUpdate {ℓ} (D : Type ℓ) : Type ℓ where
  pub modem_tcp_port : ℤ
  pub lat : D
  pub lon : D
  pub depth : D
  pub speed : D
  pub heading : D
  pub is_initialized : Bool

pub data Status : Type 0 where
  update_accepted : Status
  update_failed_invalid_modem_tcp_port : Status
  update_failed_invalid_source_address : Status
  update_failed_out_of_defined_region : Status

-- What the manager publishes and writes; `gps_line` is the sentence of `write_gps_out` (Gps).
pub data Publication {ℓ} (D : Type ℓ) : Type ℓ where
  env_nav_update : ℤ → NavUpdate D → Publication D
  gps_line : NavUpdate D → Publication D
  receive_stats : Text → Publication D
  response : ℤ → Status → Publication D

pub record NetSimManagerRequest {ℓ} (D : Type ℓ) : Type ℓ where
  pub id : ℤ
  pub nav : List (NavUpdate D)
  pub stats : List Text

pub record NetSimManager {ℓ} (D : Type ℓ) : Type ℓ where
  pub env_cfg : Map ℤ SimEnvironmentPair
  pub env_bounds : Map ℤ (EnvironmentBounds D)

module _ {ℓ} {D : Type ℓ} where
  -- The two loops of `process_configuration`.
  unfoldable pub add_bounds :
      List (EnvironmentBounds D) → NetSimManager D → Option (NetSimManager D)
  add_bounds [] s = some s
  add_bounds (b ∷ bs) s =
      let rest = add_bounds bs (record s { env_bounds = assign b.environment_id b s.env_bounds }) in
      if contains b.environment_id s.env_bounds then none else rest

  unfoldable pub add_pairs : List SimEnvironmentPair → NetSimManager D → Option (NetSimManager D)
  add_pairs [] s = some s
  add_pairs (p ∷ ps) s =
      let rest = add_pairs ps (record s { env_cfg = assign p.modem_tcp_port p s.env_cfg }) in
      if contains p.modem_tcp_port s.env_cfg
      then none
      else if not (contains p.environment_id s.env_bounds)
      then none
      else rest

  unfoldable pub process_configuration :
      List (EnvironmentBounds D) → List SimEnvironmentPair → Option (NetSimManager D)
  process_configuration bounds pairs =
      elim (add_bounds bounds (record { env_cfg = []; env_bounds = [] })) [
        | none ↦ none
        | some s ↦ add_pairs pairs s
      ]

  -- `handle_impulse_request`, `handle_performance_request` and `handle_bellhop_request`: the
  -- environment of the request that is passed on, whose source is converted by `goby::util::as<int>`.
  unfoldable pub environment_of : (Text → ℤ) → Text → NetSimManager D → Option ℤ
  environment_of as_int source s = elim (lookup (as_int source) s.env_cfg) [
    | none ↦ none
    | some p ↦ some p.environment_id
  ]

module _ {ℓ} {D : Type ℓ} ⦃d : Double D⦄ where
  unfoldable pub out_of_region : EnvironmentBounds D → NavUpdate D → Bool
  out_of_region b nav =
      d.lt nav.lat b.lat_min
      || d.lt b.lat_max nav.lat
      || d.lt nav.lon b.lon_min
      || d.lt b.lon_max nav.lon
      || d.lt nav.depth b.depth_min
      || d.lt b.depth_max nav.depth

  -- The loop over the updates, which a failure breaks.
  unfoldable pub update_all :
      Text → List (NavUpdate D) → NetSimManager D → Option (Status × List (Publication D))
  update_all address [] s = some (update_accepted, [])
  update_all address (nav ∷ navs) s =
      let rest = update_all address navs s in
      elim (lookup nav.modem_tcp_port s.env_cfg) [
        | none ↦ some (update_failed_invalid_modem_tcp_port, [])
        | some p ↦
            if not (text_key.eqb address p.endpoint_ip_address)
            then some (update_failed_invalid_source_address, [])
            else elim (lookup p.environment_id s.env_bounds) [
              | none ↦ none
              | some b ↦
                  if out_of_region b nav
                  then some (update_failed_out_of_defined_region, [])
                  else elim rest [
                    | none ↦ none
                    | some (status, out) ↦ some (
                      status,
                      (if nav.is_initialized
                            then env_nav_update p.environment_id nav ∷ gps_line nav ∷ []
                            else [])
                          ++ out,
                    )
                  ]
            ]
      ]

  -- `process_request`, with the address of the endpoint that the request came from.
  unfoldable pub process_request :
      NetSimManagerRequest D → Text → NetSimManager D → Option (List (Publication D))
  process_request req address s = elim (update_all address req.nav s) [
    | none ↦ none
    | some (status, out) ↦ some (out ++ map receive_stats req.stats ++ response req.id status ∷ [])
  ]
