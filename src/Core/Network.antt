-- ===== src/Core/Network.antt =====
-- src/apps/netsim_core: which threads run and which groups connect them (netsim_core_main.cpp,
-- bridge.h, logger.h, jack_thread.h, src/lib/core/processor.h, src/lib/messages/groups.h). The
-- switches over BOOST_PP_REPEAT cases are recursion over the cases; `max` is NETSIM_MAX_MODEMS.
pub mod Launch
pub mod Groups
pub mod Bridging
pub mod Processors
mod Examples
use netsim.Prelude.{
  ℕ, zero, suc, ◌+◌, ◌-◌, ◌*◌, ◌/◌, ◌%◌, Bool, true, false, not, ◌&&◌, List, [], ◌∷◌, ◌++◌, map,
  Option, none, some, ltb, leb, ◌==◌, if◌then◌else◌,
}

-- An instance of netsim_core; without a bridge all modems are local.
pub record CoreConfig : Type 0 where
  pub number_of_modems : ℕ
  pub bridge : Option (ℕ × ℕ)

unfoldable pub first_modem_index : CoreConfig → ℕ
first_modem_index cfg = elim cfg.bridge [ none ↦ 0 | some (first, _) ↦ first ]

unfoldable pub local_number_of_modems : CoreConfig → ℕ
local_number_of_modems cfg = elim cfg.bridge [
  | none ↦ cfg.number_of_modems
  | some (_, local) ↦ local
]

unfoldable pub is_local : CoreConfig → ℕ → Bool
is_local cfg n =
    leb (first_modem_index cfg) n && ltb n (first_modem_index cfg + local_number_of_modems cfg)

-- The cases of the switch that launches the detectors, from `case c` on: each falls through to the
-- next one, and case `c` launches the detector of modem `c - 1` if it is not below the first one.
unfoldable pub detector_cases : ℕ → ℕ → List ℕ
detector_cases first zero = []
detector_cases first (suc c) =
    let rest = detector_cases first c in if leb first c then c ∷ rest else rest

-- The switch itself: there are the cases 1 to `max`.
unfoldable pub launch_detectors : ℕ → CoreConfig → List ℕ
launch_detectors max cfg =
    let total = local_number_of_modems cfg + first_modem_index cfg in
    if leb total max then detector_cases (first_modem_index cfg) total else []

-- The switch that launches the JACK threads; more modems than `max` end the program before it.
unfoldable pub launch_jack_threads : ℕ → CoreConfig → List ℕ
launch_jack_threads max cfg =
    if leb (cfg.number_of_modems) max then detector_cases 0 (cfg.number_of_modems) else []

-- The loop over `i` that launches the processor threads.
unfoldable pub launch_processors : ℕ → ℕ → List ℕ
launch_processors first zero = []
launch_processors first (suc count) = first ∷ launch_processors (first + 1) count

-- The number of the group `AudioOut<from, to>`.
unfoldable pub audio_out_group : ℕ → ℕ → ℕ → ℕ
audio_out_group max from to = from * max + to

-- The modems that the case of a group's number takes in the logger.
unfoldable pub logger_case : ℕ → ℕ → ℕ × ℕ
logger_case max n = (n / max, n % max)

-- The groups that a processor listens to: `DetectorAudio<i>` of all modems but its own.
unfoldable pub listens : ℕ → ℕ → List ℕ
listens to zero = []
listens to (suc n) = let rest = listens to n in if not (n == to) then rest ++ n ∷ [] else rest

-- What travels between threads: a block of modem `from` on `DetectorAudio` within an instance, or on
-- `BridgeAudio` between the instances.
pub data Message : Type 0 where
  detector_audio : ℕ → ℕ → Message
  bridge_audio : ℕ → Message

-- Whether the instance launches its bridge thread.
unfoldable pub has_bridge : CoreConfig → Bool
has_bridge cfg = elim cfg.bridge [ none ↦ false | some _ ↦ true ]

-- The bridges that listen to `BridgeAudio<from>`, and what their `bridge_in` publishes.
unfoldable pub bridge_in : ℕ → List CoreConfig → ℕ → List Message
bridge_in i [] from = []
bridge_in i (cfg ∷ cfgs) from =
    let rest = bridge_in (i + 1) cfgs from in
    if has_bridge cfg && (ltb from cfg.number_of_modems && not (is_local cfg from))
    then detector_audio i from ∷ rest
    else rest

-- What `bridge_out` of an instance publishes, which listens to `DetectorAudio` of local modems.
unfoldable pub bridge_out : Option CoreConfig → ℕ → List Message
bridge_out none from = []
bridge_out (some cfg) from =
    if has_bridge cfg && (ltb from cfg.number_of_modems && is_local cfg from)
    then bridge_audio from ∷ []
    else []
