-- ===== src/Manager/Requests.antt =====
-- src/apps/netsim_manager/manager.cpp: the requests of netsim_udp and others, which are passed on with
-- the environment of their source. `R` stands for the message of a request.
use netsim.Prelude.{List, [], ◌∷◌, none, some}
use netsim.Prelude.Int.{ℤ}
use netsim.Prelude.Text.{Text}
use netsim.Manager.{NetSimManager, environment_of}

-- What is published on `env_impulse_req`, `env_performance_req` and `env_bellhop_req`.
pub data EnvironmentRequest {ℓ} (R : Type ℓ) : Type ℓ where
  env_impulse_req env_performance_req env_bellhop_req : ℤ → R → EnvironmentRequest R

module _ {ℓ κ} {D : Type ℓ} {R : Type κ} (as_int : Text → ℤ) where
  unfoldable pub with_environment :
      (ℤ → R → EnvironmentRequest R) → Text → R → NetSimManager D → List (EnvironmentRequest R)
  with_environment publish source req s = elim (environment_of as_int source s) [
    | none ↦ []
    | some id ↦ publish id req ∷ []
  ]

  -- `source` is the field of that name.
  unfoldable pub handle_impulse_request :
      (R → Text) → R → NetSimManager D → List (EnvironmentRequest R)
  handle_impulse_request source req s = with_environment env_impulse_req (source req) req s

  unfoldable pub handle_performance_request :
      (R → Text) → R → NetSimManager D → List (EnvironmentRequest R)
  handle_performance_request contact req s =
      with_environment env_performance_req (contact req) req s

  -- `ownship` is the field `env().adaptive_info().ownship()`.
  unfoldable pub handle_bellhop_request :
      (R → Text) → R → NetSimManager D → List (EnvironmentRequest R)
  handle_bellhop_request ownship req s = with_environment env_bellhop_req (ownship req) req s
