-- ===== src/Gateway/Routing.antt =====
-- src/lib/moos_translator_plugin/moos_plugin.cpp: which gateways hand on what the manager publishes, and
-- the entries of the translator that this needs.
use Prim.Native.String.{String}
use netsim.Prelude.{
  ℕ, ◌≡◌, refl, ap, ◌∙◌, flatten, ◌%◌, Bool, true, false, Bool-cases, inl, inr, List, [], ◌∷◌, map,
  sym, subst, All, Option, none, some, if◌then◌else◌,
}
use netsim.Prelude.Int.{ℤ, pos, eqb_ℤ}
use netsim.Prelude.Maps.{string_key}
use netsim.Prelude.Text.{Text}
use netsim.Manager.{NetSimManager, environment_of}
use netsim.Manager.Requests.{
  EnvironmentRequest, env_impulse_req, env_performance_req, env_bellhop_req, with_environment,
  handle_impulse_request, handle_performance_request, handle_bellhop_request,
}
use netsim.Gateway.{
  TranslatorEntry, creates, publishes, translator_entries, triggers, NetSimCoreTranslation,
  translation, FromManager, nav_update, request, goby_to_moos, ResponseGroup, moos_to_goby,
  imp_resp_var, imp_req_var, nav_update_var, bellhop_req_var, bellhop_resp_var, perf_req_var,
  perf_resp_var,
}

-- The variables of the entries for a type.
unfoldable pub published_on : String → List TranslatorEntry → List String
published_on name [] = []
published_on name (creates n var ∷ entries) = published_on name entries
published_on name (publishes n var ∷ entries) =
    let rest = published_on name entries in if string_key.eqb n name then var ∷ rest else rest

unfoldable pub created_from : String → List TranslatorEntry → List String
created_from name [] = []
created_from name (publishes n var ∷ entries) = created_from name entries
created_from name (creates n var ∷ entries) =
    let rest = created_from name entries in if string_key.eqb n name then var ∷ rest else rest

-- The gateways of an environment: those whose port of MOOS ends in its digit.
unfoldable pub of_environment : ℤ → List ℕ → List ℕ
of_environment id [] = []
of_environment id (port ∷ ports) =
    let rest = of_environment id ports in if eqb_ℤ id (pos (port % 10)) then port ∷ rest else rest

module _ {ℓ} {P : Type ℓ} where
  -- What the translator of the gateway at a port gets of the requests.
  unfoldable pub handed_at : ℕ → List (EnvironmentRequest P) → List (ℕ × (String × P))
  handed_at port reqs =
      flatten (map (λ r. map (λ m. (port, m)) (goby_to_moos (translation port) (request r))) reqs)

  unfoldable pub handed : List ℕ → List (EnvironmentRequest P) → List (ℕ × (String × P))
  handed ports reqs = flatten (map (λ port. handed_at port reqs) ports)

  -- What a request of a kind becomes.
  unfoldable pub message_of : EnvironmentRequest P → String × P
  message_of (env_impulse_req id req) = ("netsim.protobuf.ImpulseRequest", req)
  message_of (env_performance_req id req) = ("netsim.protobuf.ObjFuncRequest", req)
  message_of (env_bellhop_req id req) = ("netsim.protobuf.iBellhopRequest", req)

  unfoldable pub id_of : EnvironmentRequest P → ℤ
  id_of (env_impulse_req id req) = id
  id_of (env_performance_req id req) = id
  id_of (env_bellhop_req id req) = id

  goby_to_moos_lem :
      (port : ℕ) (r : EnvironmentRequest P)
      → goby_to_moos (translation port) (request r)
        ≡ (if eqb_ℤ (id_of r) (pos (port % 10)) then message_of r ∷ [] else [])
  unfolding goby_to_moos translation message_of id_of
  goby_to_moos_lem port (env_impulse_req id req) = refl
  goby_to_moos_lem port (env_performance_req id req) = refl
  goby_to_moos_lem port (env_bellhop_req id req) = refl

  handed-of_environment :
      (ports : List ℕ) (r : EnvironmentRequest P)
      → handed ports (r ∷ []) ≡ map (λ port. (port, message_of r)) (of_environment (id_of r) ports)
  unfolding handed handed_at of_environment
  handed-of_environment [] r = refl
  handed-of_environment (port ∷ ports) r = elim (Bool-cases (eqb_ℤ (id_of r) (pos (port % 10)))) [
    | inl e ↦ rw (goby_to_moos_lem port r, e, handed-of_environment ports r) refl
    | inr e ↦ rw (goby_to_moos_lem port r, e, handed-of_environment ports r) refl
  ]

  handed-nothing : (ports : List ℕ) → handed ports [] ≡ []
  unfolding handed handed_at
  handed-nothing [] = refl
  handed-nothing (port ∷ ports) = handed-nothing ports

  -- What is handed on of a request whose source has this environment, as a message of a type.
  unfoldable pub hands : List ℕ → String × P → Option ℤ → List (ℕ × (String × P))
  hands ports m none = []
  hands ports m (some id) = map (λ port. (port, m)) (of_environment id ports)

module _ {ℓ κ} {D : Type ℓ} {R : Type κ} (as_int : Text → ℤ) (ports : List ℕ) where
  handed-with_environment :
      (publish : ℤ → R → EnvironmentRequest R) (m : String × R) (source : Text) (req : R)
      (s : NetSimManager D)
      → ((id : ℤ) → id_of (publish id req) ≡ id)
      → ((id : ℤ) → message_of (publish id req) ≡ m)
      → handed ports (with_environment as_int publish source req s)
        ≡ hands ports m (environment_of as_int source s)
  unfolding with_environment hands
  handed-with_environment publish m source req s ids ms = by_result (environment_of as_int source s)
    where
      by_result :
          (o : Option ℤ)
          → handed ports (elim o [ none ↦ [] | some id ↦ publish id req ∷ [] ]) ≡ hands ports m o
      by_result none = handed-nothing ports
      by_result (some id) =
          handed-of_environment ports (publish id req)
          ∙ ap (λ m. map (λ port. (port, m)) (of_environment (id_of (publish id req)) ports))
              (ms id)
          ∙ ap (λ i. map (λ port. (port, m)) (of_environment i ports)) (ids id)

  -- Each of the three requests is handed to the translators of exactly those gateways whose port of
  -- MOOS ends in the digit that is the environment of its source, once by each and unchanged, as a
  -- message of the type of the request; a request whose source has no environment reaches none.
  pub handed-handle_request :
      (source : R → Text) (req : R) (s : NetSimManager D)
      → (handed ports (handle_impulse_request as_int source req s)
          ≡ hands ports
              ("netsim.protobuf.ImpulseRequest", req)
              (environment_of as_int (source req) s))
        × (handed ports (handle_performance_request as_int source req s)
            ≡ hands ports
                ("netsim.protobuf.ObjFuncRequest", req)
                (environment_of as_int (source req) s))
        × (handed ports (handle_bellhop_request as_int source req s)
            ≡ hands ports
                ("netsim.protobuf.iBellhopRequest", req)
                (environment_of as_int (source req) s))
  unfolding handle_impulse_request handle_performance_request handle_bellhop_request id_of
      message_of
  handed-handle_request source req s = (
    handed-with_environment env_impulse_req _ (source req) req s (λ id. refl) (λ id. refl),
    handed-with_environment env_performance_req _ (source req) req s (λ id. refl) (λ id. refl),
    handed-with_environment env_bellhop_req _ (source req) req s (λ id. refl) (λ id. refl),
  )

unfoldable pub has_trigger : String → List String → Bool
has_trigger key [] = false
has_trigger key (var ∷ vars) = if string_key.eqb key var then true else has_trigger key vars

-- A variable that is translated has a trigger and is the one that its type is created from.
unfoldable pub IsTranslated : String → Option (String × ResponseGroup) → Type 0
IsTranslated key none = has_trigger key triggers ≡ false
IsTranslated key (some m) =
    (has_trigger key triggers ≡ true) × (created_from m.0 translator_entries ≡ key ∷ [])

moos_to_goby-IsTranslated : (key : String) → IsTranslated key (moos_to_goby key)
unfolding moos_to_goby IsTranslated triggers has_trigger created_from translator_entries
moos_to_goby-IsTranslated key = elim (Bool-cases (string_key.eqb key imp_resp_var)) [
  | inl e ↦ at imp_resp_var (refl, refl) e
  | inr e ↦ elim (Bool-cases (string_key.eqb key bellhop_resp_var)) [
    | inl e' ↦ at bellhop_resp_var (refl, refl) e'
    | inr e' ↦ elim (Bool-cases (string_key.eqb key perf_resp_var)) [
      | inl e'' ↦ at perf_resp_var (refl, refl) e''
      | inr e'' ↦ rw (e, e', e'') (without e e' e'')
    ]
  ]
]
  where
    without :
        string_key.eqb key imp_resp_var ≡ false
        → string_key.eqb key bellhop_resp_var ≡ false
        → string_key.eqb key perf_resp_var ≡ false
        → has_trigger key triggers ≡ false
    without e e' e'' = rw (e, e', e'') refl

    at :
        (var : String)
        → IsTranslated var (moos_to_goby var)
        → string_key.eqb key var ≡ true
        → IsTranslated key (moos_to_goby key)
    at var t e =
        subst (λ k. IsTranslated k (moos_to_goby k)) (sym ((string_key.eqb_iff key var).0 e)) t

-- A message is posted on one variable, whose own messages are not translated back.
unfoldable pub IsPosted {ℓ} : {P : Type ℓ} → String × P → Type 0
IsPosted m =
    (var : String) × (published_on m.0 translator_entries ≡ var ∷ [])
    × (has_trigger var triggers ≡ false)

if_IsPosted {ℓ} :
    {P : Type ℓ} (m : String × P) (b : Bool) → IsPosted m → All IsPosted (if b then m ∷ [] else [])
if_IsPosted m true p = (p, tt)
if_IsPosted m false p = tt

goby_to_moos-IsPosted {ℓ} :
    {P : Type ℓ} (t : NetSimCoreTranslation) (m : FromManager P) → All IsPosted (goby_to_moos t m)
unfolding goby_to_moos published_on IsPosted translator_entries triggers has_trigger
goby_to_moos-IsPosted t (nav_update id nav) =
    if_IsPosted _ (eqb_ℤ id t.environment_id) (nav_update_var, refl, refl)
goby_to_moos-IsPosted t (request (env_impulse_req id req)) =
    if_IsPosted _ (eqb_ℤ id t.environment_id) (imp_req_var, refl, refl)
goby_to_moos-IsPosted t (request (env_performance_req id req)) =
    if_IsPosted _ (eqb_ℤ id t.environment_id) (perf_req_var, refl, refl)
goby_to_moos-IsPosted t (request (env_bellhop_req id req)) =
    if_IsPosted _ (eqb_ℤ id t.environment_id) (bellhop_req_var, refl, refl)

-- The entries of the translator fit the rest of the plug-in. A variable has a trigger exactly if its
-- messages are translated, and then it is the one variable from which their type is created. What a
-- gateway translates of the manager is of a type that is posted on one variable, without a trigger.
pub translator_entries_lem {ℓ} :
    {P : Type ℓ}
    → ((key : String) → IsTranslated key (moos_to_goby key))
      × ((t : NetSimCoreTranslation) (m : FromManager P) → All IsPosted (goby_to_moos t m))
translator_entries_lem = (moos_to_goby-IsTranslated, goby_to_moos-IsPosted)
