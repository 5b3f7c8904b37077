-- ===== src/Core/Network/Examples.antt =====
-- Two instances that share four modems, with a maximum of 16.
use netsim.Prelude.{ℕ, ◌+◌, ◌≡◌, refl, true, ◌&&◌, [], ◌∷◌, some, length, leb, if◌then◌else◌, arith}
use netsim.Core.Network.{
  CoreConfig, is_local, first_modem_index, local_number_of_modems, launch_detectors, detector_cases,
  audio_out_group, launch_processors, logger_case, detector_audio, bridge_audio, bridge_in,
  bridge_out, has_bridge,
}
use netsim.Core.Network.Launch.{times, launch_detectors-times}
use netsim.Core.Network.Groups.{logger_case-audio_out_group}
use netsim.Core.Network.Processors.{echo_all, heard_at, on_group-echo_all}
use netsim.Core.Jack.Setup.{subscribe_out}
use netsim.Core.Network.Bridging.{handle, round, rounds, heard_in, is_remote, rounds-heard_in}

abbrev west : CoreConfig
west = record { number_of_modems = 4; bridge = some (0, 2) }

abbrev east : CoreConfig
east = record { number_of_modems = 4; bridge = some (2, 2) }

-- A bridge whose modems are beyond the maximum.
abbrev beyond : CoreConfig
beyond = record { number_of_modems = 4; bridge = some (14, 4) }

launched_east : launch_detectors 16 east ≡ 3 ∷ 2 ∷ []
unfolding launch_detectors detector_cases first_modem_index local_number_of_modems
launched_east = refl

launch_detectors-times_example :
    (times 15 (launch_detectors 16 beyond) ≡ (
      if leb (local_number_of_modems beyond + first_modem_index beyond) 16 && is_local beyond 15
      then 1
      else 0))
    × (length (launch_detectors 16 beyond) ≡ (
        if leb (local_number_of_modems beyond + first_modem_index beyond) 16
        then local_number_of_modems beyond
        else 0))
launch_detectors-times_example = launch_detectors-times 16 15 beyond

logger_case-audio_out_group_example : logger_case 16 (audio_out_group 16 3 5) ≡ (3, 5)
logger_case-audio_out_group_example = logger_case-audio_out_group 16 3 5 (omega arith) (omega arith)

local_one : is_local west 1 ≡ true
unfolding is_local first_modem_index local_number_of_modems
local_one = refl

rounds-heard_in_example :
    (rounds 1 (west ∷ east ∷ []) (detector_audio 0 1 ∷ [])
      ≡ (if has_bridge west then bridge_audio 1 ∷ [] else []))
    × (heard_in 1 1 (rounds 2 (west ∷ east ∷ []) (detector_audio 0 1 ∷ []))
        ≡ (if has_bridge west && is_remote (some east) 1 then 1 else 0))
    × (rounds 3 (west ∷ east ∷ []) (detector_audio 0 1 ∷ []) ≡ [])
rounds-heard_in_example = rounds-heard_in (west ∷ east ∷ []) 0 1 1 west refl refl local_one

crossed : rounds 2 (west ∷ east ∷ []) (detector_audio 0 1 ∷ []) ≡ detector_audio 1 1 ∷ []
unfolding rounds round handle bridge_in bridge_out is_local has_bridge first_modem_index
    local_number_of_modems
crossed = refl

abbrev block : ℕ
block = 77

on_group-echo_all_example :
    heard_at 16 3 (subscribe_out 16 1 0 4) (echo_all 16 4 (launch_processors 0 4) block 1)
    ≡ block ∷ []
on_group-echo_all_example = on_group-echo_all 16 4 1 3 0 4 block 1 (omega arith) (omega arith)
