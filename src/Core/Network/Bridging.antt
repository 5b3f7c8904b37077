-- ===== src/Core/Network/Bridging.antt =====
-- src/apps/netsim_core/bridge.h: the blocks of a modem in several instances of netsim_core.
use netsim.Prelude.{
  ℕ, zero, suc, ◌+◌, ◌≡◌, refl, ap, ◌∙◌, Bool, true, false, Bool-cases, inl, inr, not, ◌&&◌, List,
  [], ◌∷◌, map, Option, none, some, get_elem?, append-nil, ◌<◌, flatten, ltb, ◌==◌, if◌then◌else◌,
  arith,
}
use netsim.Core.Network.{
  CoreConfig, has_bridge, is_local, Message, detector_audio, bridge_audio, bridge_in, bridge_out,
}

-- What the bridges publish when a message is published.
unfoldable pub handle : List CoreConfig → Message → List Message
handle cfgs (detector_audio i from) = bridge_out (get_elem? cfgs i) from
handle cfgs (bridge_audio from) = bridge_in 0 cfgs from

-- What they publish in answer to a list of messages.
unfoldable pub round : List CoreConfig → List Message → List Message
round cfgs ms = flatten (map (handle cfgs) ms)

unfoldable pub rounds : ℕ → List CoreConfig → List Message → List Message
rounds zero cfgs ms = ms
rounds (suc n) cfgs ms = rounds n cfgs (round cfgs ms)

-- The instances with a bridge that take part in the simulation of a modem and for which it is not
-- local.
unfoldable pub is_remote : Option CoreConfig → ℕ → Bool
is_remote none from = false
is_remote (some cfg) from =
    has_bridge cfg && (ltb from cfg.number_of_modems && not (is_local cfg from))

-- How often a block of `from` is published in an instance.
unfoldable pub heard_in : ℕ → ℕ → List Message → ℕ
heard_in j from [] = 0
heard_in j from (bridge_audio f ∷ ms) = heard_in j from ms
heard_in j from (detector_audio i f ∷ ms) =
    let rest = heard_in j from ms in if i == j && f == from then suc rest else rest

heard_before :
    (k i : ℕ) (cfgs : List CoreConfig) (from : ℕ)
    → i < k
    → heard_in i from (bridge_in k cfgs from) ≡ 0
unfolding heard_in bridge_in
heard_before k i [] from h = refl
heard_before k i (cfg ∷ cfgs) from h =
    ground (arith, heard_before (k + 1) i cfgs from (omega arith))

heard-bridge_in :
    (k i j : ℕ) (cfgs : List CoreConfig) (from : ℕ)
    → i ≡ k + j
    → heard_in i from (bridge_in k cfgs from) ≡ (if is_remote (get_elem? cfgs j) from then 1 else 0)
unfolding heard_in bridge_in is_remote
heard-bridge_in k i j [] from at = refl
heard-bridge_in k i zero (cfg ∷ cfgs) from at =
    ground (arith, heard_before (k + 1) i cfgs from (omega arith))
heard-bridge_in k i (suc j) (cfg ∷ cfgs) from at =
    ground (arith, heard-bridge_in (k + 1) i j cfgs from (omega arith))

-- What a bridge has put into an instance goes no further.
quiet :
    (all cfgs : List CoreConfig) (k from : ℕ)
    → ((j : ℕ) → get_elem? all (k + j) ≡ get_elem? cfgs j)
    → flatten (map (handle all) (bridge_in k cfgs from)) ≡ []
unfolding handle bridge_in bridge_out
quiet all [] k from h = refl
quiet all (cfg ∷ cfgs) k from h =
    let rest = quiet all cfgs (k + 1) from (λ j. ap (get_elem? all) (omega arith) ∙ h (suc j)) in
    let here : get_elem? all k ≡ some cfg = ap (get_elem? all) (omega arith) ∙ h 0 in
    elim (Bool-cases (has_bridge cfg)) [
      | inr alone ↦ rw (alone) rest
      | inl bridge ↦ elim (Bool-cases (ltb from cfg.number_of_modems)) [
        | inr beyond ↦ rw (bridge, beyond) rest
        | inl within ↦ elim (Bool-cases (is_local cfg from)) [
          | inl local ↦ rw (bridge, within, local) rest
          | inr remote ↦ rw (bridge, within, remote) (rw (here) (rw (bridge, within, remote) rest))
        ]
      ]
    ]

-- A block that the detector of a local modem publishes crosses the bridge once, if the instance has
-- one, and without a bridge not at all: it is published once more in each other instance with a
-- bridge that simulates the modem and has it as a remote one, in no instance besides these, and what
-- is published there makes no bridge publish anything, so that no block runs in circles.
pub rounds-heard_in :
    (cfgs : List CoreConfig) (i j from : ℕ) (cfg : CoreConfig)
    → get_elem? cfgs i ≡ some cfg
    → ltb from cfg.number_of_modems ≡ true
    → is_local cfg from ≡ true
    → let start = detector_audio i from ∷ [] in
      (rounds 1 cfgs start ≡ (if has_bridge cfg then bridge_audio from ∷ [] else []))
      × (heard_in j from (rounds 2 cfgs start)
          ≡ (if has_bridge cfg && is_remote (get_elem? cfgs j) from then 1 else 0))
      × (rounds 3 cfgs start ≡ [])
unfolding rounds round handle bridge_out heard_in
rounds-heard_in cfgs i j from cfg here within local = elim (Bool-cases (has_bridge cfg)) [
  | inr alone ↦ (
    rw here (rw (within, local) (rw alone)),
    rw here (rw (within, local) (rw alone)),
    rw here (rw (within, local) (rw alone)),
  )
  | inl bridge ↦ (
    rw here (rw (within, local) (rw bridge)),
    rw here (
        rw (within, local)
          (rw bridge (
            rw (append-nil (bridge_in 0 cfgs from))
              (heard-bridge_in 0 j j cfgs from (omega arith))))),
    rw here (
        rw (within, local)
          (rw bridge (
            rw (append-nil (bridge_in 0 cfgs from))
              (quiet cfgs cfgs 0 from (λ j. ap (get_elem? cfgs) (omega arith)))))),
  )
]
