-- ===== src/Gateway.antt =====
-- src/lib/moos_translator_plugin/moos_plugin.cpp: the plug-in of the MOOS gateway, of which one runs for
-- each environment. `P` stands for the messages that are translated.
pub mod Routing
mod Examples
use Prim.Native.String.{String}
use netsim.Prelude.{
  ℕ, ◌%◌, Bool, true, false, List, [], ◌∷◌, ◌++◌, Option, none, some, if◌then◌else◌,
}
use netsim.Prelude.Int.{ℤ, pos, eqb_ℤ}
use netsim.Prelude.Maps.{string_key}
use netsim.Manager.Requests.{
  EnvironmentRequest, env_impulse_req, env_performance_req, env_bellhop_req,
}

abbrev pub imp_resp_var : String
imp_resp_var = "IMPULSE_RESPONSE"

abbrev pub imp_req_var : String
imp_req_var = "IMPULSE_REQUEST"

abbrev pub nav_update_var : String
nav_update_var = "NETSIM_NAV_UPDATE"

abbrev pub bellhop_req_var : String
bellhop_req_var = "BELLHOP_REQUEST"

abbrev pub bellhop_resp_var : String
bellhop_resp_var = "BELLHOP_RESPONSE"

abbrev pub perf_resp_var : String
perf_resp_var = "PERFORMANCE_RESPONSE"

abbrev pub perf_req_var : String
perf_req_var = "PERFORMANCE_REQUEST"

-- An entry of the translator: a type is created from a variable, or published on one. All entries
-- have the same technique, protobuf text with a prefix.
pub data TranslatorEntry : Type 0 where
  creates publishes : String → String → TranslatorEntry

-- The entries that the constructor adds.
unfoldable pub translator_entries : List TranslatorEntry
translator_entries =
    creates "netsim.protobuf.ImpulseResponse" imp_resp_var
    ∷ publishes "netsim.protobuf.ImpulseRequest" imp_req_var
    ∷ publishes "netsim.protobuf.NavUpdate" nav_update_var
    ∷ creates "netsim.protobuf.iBellhopResponse" bellhop_resp_var
    ∷ publishes "netsim.protobuf.iBellhopRequest" bellhop_req_var
    ∷ creates "netsim.protobuf.ObjFuncResponse" perf_resp_var
    ∷ publishes "netsim.protobuf.ObjFuncRequest" perf_req_var
    ∷ []

-- The variables that the constructor adds a trigger for.
unfoldable pub triggers : List String
triggers = imp_resp_var ∷ bellhop_resp_var ∷ perf_resp_var ∷ []

pub record NetSimCoreTranslation : Type 0 where
  pub environment_id : ℤ

-- The constructor, for the port of MOOS, which is not negative.
unfoldable pub translation : ℕ → NetSimCoreTranslation
translation port = record { environment_id = pos (port % 10) }

-- What the four groups of the manager carry.
pub data FromManager {ℓ} (P : Type ℓ) : Type ℓ where
  nav_update : ℤ → P → FromManager P
  request : EnvironmentRequest P → FromManager P

module _ {ℓ} {P : Type ℓ} where
  -- The message that the translator gets, with its type, if it is of this environment.
  unfoldable pub goby_to_moos : NetSimCoreTranslation → FromManager P → List (String × P)
  goby_to_moos t (nav_update id nav) =
      if eqb_ℤ id t.environment_id then ("netsim.protobuf.NavUpdate", nav) ∷ [] else []
  goby_to_moos t (request (env_impulse_req id req)) =
      if eqb_ℤ id t.environment_id then ("netsim.protobuf.ImpulseRequest", req) ∷ [] else []
  goby_to_moos t (request (env_performance_req id req)) =
      if eqb_ℤ id t.environment_id then ("netsim.protobuf.ObjFuncRequest", req) ∷ [] else []
  goby_to_moos t (request (env_bellhop_req id req)) =
      if eqb_ℤ id t.environment_id then ("netsim.protobuf.iBellhopRequest", req) ∷ [] else []

pub data ResponseGroup : Type 0 where
  impulse_response bellhop_response performance_response : ResponseGroup

-- The type that the translator makes of a variable, and the group on which it is published.
unfoldable pub moos_to_goby : String → Option (String × ResponseGroup)
moos_to_goby key =
    if string_key.eqb key imp_resp_var
    then some ("netsim.protobuf.ImpulseResponse", impulse_response)
    else if string_key.eqb key bellhop_resp_var
    then some ("netsim.protobuf.iBellhopResponse", bellhop_response)
    else if string_key.eqb key perf_resp_var
    then some ("netsim.protobuf.ObjFuncResponse", performance_response)
    else none
