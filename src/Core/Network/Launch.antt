-- ===== src/Core/Network/Launch.antt =====
-- src/apps/netsim_core/netsim_core_main.cpp: which detectors the falling through switch launches.
use netsim.Prelude.{
  ℕ, zero, suc, ◌+◌, ◌-◌, ◌≡◌, ◌&&◌, List, [], ◌∷◌, length, ltb, leb, ◌==◌, if◌then◌else◌, arith,
}
use netsim.Core.Network.{
  CoreConfig, first_modem_index, local_number_of_modems, is_local, detector_cases, launch_detectors,
}

-- How often a number is in a list.
unfoldable pub times : ℕ → List ℕ → ℕ
times n [] = 0
times n (m ∷ ms) = let rest = times n ms in if m == n then suc rest else rest

times-detector_cases :
    (first c n : ℕ) → times n (detector_cases first c) ≡ (if leb first n && ltb n c then 1 else 0)
unfolding times detector_cases
times-detector_cases first zero n = ground arith
times-detector_cases first (suc c) n = ground (arith, times-detector_cases first c n)

length-detector_cases : (first c : ℕ) → length (detector_cases first c) ≡ c - first
unfolding detector_cases
length-detector_cases first zero = omega arith
length-detector_cases first (suc c) = ground (arith, length-detector_cases first c)

-- If the last local modem is within the maximum, one detector is launched for each local modem and
-- none for another, so that the wait for as many detectors ends; else none is launched at all.
pub launch_detectors-times :
    (max n : ℕ) (cfg : CoreConfig)
    → let fits = leb (local_number_of_modems cfg + first_modem_index cfg) max in
      (times n (launch_detectors max cfg) ≡ (if fits && is_local cfg n then 1 else 0))
      × (length (launch_detectors max cfg) ≡ (if fits then local_number_of_modems cfg else 0))
unfolding launch_detectors is_local times
launch_detectors-times max n cfg =
    let first = first_modem_index cfg in
    let local = local_number_of_modems cfg in
    (
      ground (arith, times-detector_cases first (local + first) n),
      ground (arith, length-detector_cases first (local + first)),
    )
