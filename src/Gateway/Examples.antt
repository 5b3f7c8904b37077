-- ===== src/Gateway/Examples.antt =====
-- Three gateways of MOOS and a manager with one vehicle.
use Prim.Native.String.{String}
use netsim.Prelude.{ℕ, ◌+◌, All, ◌≡◌, refl, List, [], ◌∷◌, some}
use netsim.Prelude.Int.{ℤ, pos}
use netsim.Prelude.Maps.{lookup, int_key}
use netsim.Prelude.Text.{Text}
use netsim.Manager.{NetSimManager, environment_of}
use netsim.Manager.Requests.{
  handle_impulse_request, handle_performance_request, handle_bellhop_request, with_environment,
}
use netsim.Gateway.{
  NetSimCoreTranslation, FromManager, goby_to_moos, translation, moos_to_goby, bellhop_response,
}
use netsim.Gateway.Routing.{
  handed, handed_at, hands, IsTranslated, IsPosted, handed-handle_request, translator_entries_lem,
}

abbrev gateways : List ℕ
gateways = 9000 ∷ 9001 ∷ 9010 ∷ []

abbrev manager : NetSimManager ℕ
manager = record {
  env_cfg =
      (
        pos 62000,
        record { modem_tcp_port = pos 62000; endpoint_ip_address = []; environment_id = pos 1 },
      )
      ∷ (
        pos 62001,
        record { modem_tcp_port = pos 62001; endpoint_ip_address = []; environment_id = pos 0 },
      )
      ∷ (
        pos 62002,
        record { modem_tcp_port = pos 62002; endpoint_ip_address = []; environment_id = pos 10 },
      )
      ∷ [];
  env_bounds = [];
}

-- The conversion of a source, of one digit here.
abbrev port_of : Text → ℤ
port_of [] = pos 0
port_of (digit ∷ _) = pos (62000 + digit)

abbrev source : ℕ → Text
source n = n ∷ []

-- Both gateways of environment 0 take its request, and none that of environment 10.
of_two :
    handed gateways (handle_impulse_request port_of source 1 manager)
    ≡ (9000, ("netsim.protobuf.ImpulseRequest", 1))
      ∷ (9010, ("netsim.protobuf.ImpulseRequest", 1))
      ∷ []
unfolding handed handed_at handle_impulse_request with_environment environment_of lookup
    goby_to_moos translation
of_two = refl

of_none : handed gateways (handle_bellhop_request port_of source 2 manager) ≡ []
unfolding handed handed_at handle_bellhop_request with_environment environment_of lookup
    goby_to_moos translation
of_none = refl

answered :
    moos_to_goby "BELLHOP_RESPONSE" ≡ some ("netsim.protobuf.iBellhopResponse", bellhop_response)
unfolding moos_to_goby
answered = refl

handed-handle_request_example :
    (handed gateways (handle_impulse_request port_of source 0 manager)
      ≡ hands gateways
          ("netsim.protobuf.ImpulseRequest", 0)
          (environment_of port_of (source 0) manager))
    × (handed gateways (handle_performance_request port_of source 0 manager)
        ≡ hands gateways
            ("netsim.protobuf.ObjFuncRequest", 0)
            (environment_of port_of (source 0) manager))
    × (handed gateways (handle_bellhop_request port_of source 0 manager)
        ≡ hands gateways
            ("netsim.protobuf.iBellhopRequest", 0)
            (environment_of port_of (source 0) manager))
handed-handle_request_example = handed-handle_request port_of gateways source 0 manager

translator_entries_lem_example :
    ((key : String) → IsTranslated key (moos_to_goby key))
    × ((t : NetSimCoreTranslation) (m : FromManager ℕ) → All IsPosted (goby_to_moos t m))
translator_entries_lem_example = translator_entries_lem {P = ℕ}
