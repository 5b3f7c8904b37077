-- ===== src/Core/Network/Groups.antt =====
-- src/apps/netsim_core: the groups between processors, JACK threads and the logger.
use netsim.Prelude.{
  ℕ, zero, suc, ◌+◌, ◌*◌, ◌/◌, ◌%◌, ◌<◌, ◌≡◌, ap, ◌∙◌, not, ◌&&◌, List, [], ◌∷◌, ◌++◌, ltb, ◌==◌,
  if◌then◌else◌, arith,
}
use native.Mathlib.Nat.{mul_comm, mul-add-div, div-eq_of_lt, mul-add-mod_self_right, mod-eq_of_lt}
use netsim.Core.Network.{audio_out_group, logger_case, listens}
use netsim.Core.Network.Launch.{times}

times-append : (n : ℕ) (ms ks : List ℕ) → times n (ms ++ ks) ≡ times n ms + times n ks
unfolding times
times-append n [] ks = omega arith
times-append n (m ∷ ms) ks = ground (arith, times-append n ms ks)

-- A processor listens to each other modem once, and never to its own.
pub listens-times :
    (to n i : ℕ) → times i (listens to n) ≡ (if ltb i n && not (i == to) then 1 else 0)
unfolding listens times
listens-times to zero i = ground arith
listens-times to (suc n) i =
    ground (arith, listens-times to n i, times-append i (listens to n) (n ∷ []))

-- The case of the logger's switch for the group of two modems takes those two modems: the number of
-- the group tells them apart, as both are below the maximum.
pub logger_case-audio_out_group :
    (max from to : ℕ)
    → from < max
    → to < max
    → logger_case max (audio_out_group max from to) ≡ (from, to)
unfolding logger_case audio_out_group
logger_case-audio_out_group max from to h h' =
    let quotient : (from * max + to) / max ≡ from =
      ap (λ n. (n + to) / max) (mul_comm from max)
      ∙ mul-add-div (omega arith) from to
      ∙ ap (λ n. from + n) (div-eq_of_lt h')
      ∙ omega arith in
    let rest : (from * max + to) % max ≡ to =
      mul-add-mod_self_right from max to ∙ mod-eq_of_lt h' in
    rw (quotient, rest)
