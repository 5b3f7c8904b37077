-- ===== src/Udp/Delay.antt =====
-- src/apps/netsim_udp/main.cpp: `loop`, which sends the datagrams whose time has come.
use netsim.Prelude.{◌≡◌, refl, true, false, List, ◌++◌, map, All}
use netsim.Prelude.Int.{ℤ, ltb_ℤ}
use netsim.Prelude.Multimaps.{Multimap, up_to, from, IsSorted, up_to-from, up_to-All, from-All}
use netsim.Udp.{NetSimUdp, IoData, Publication, udp_out}

unfoldable pub loop {ℓ} : {D : Type ℓ} → ℤ → NetSimUdp D → NetSimUdp D × List (Publication D)
loop now s = (
  record s { delay_buffer = from now s.delay_buffer },
  map (λ p. udp_out p.1) (up_to now s.delay_buffer),
)

-- In a sorted delay buffer, `loop` sends exactly the entries that are due, in the order of their
-- times, and keeps exactly those that are not, sorted.
pub loop_lem {ℓ} :
    {D : Type ℓ} (now : ℤ) (s : NetSimUdp D)
    → IsSorted s.delay_buffer
    → (due : Multimap (IoData D)) × (later : Multimap (IoData D)) × (loop now s
        ≡ (record s { delay_buffer = later }, map (λ p. udp_out p.1) due))
      × (due ++ later ≡ s.delay_buffer)
      × All (λ p. ltb_ℤ now p.0 ≡ false) due
      × All (λ p. ltb_ℤ now p.0 ≡ true) later
      × IsSorted later
unfolding loop
loop_lem now s h =
    let (over, sorted) = from-All now s.delay_buffer h in
    (
      up_to now s.delay_buffer,
      from now s.delay_buffer,
      refl,
      up_to-from now s.delay_buffer,
      up_to-All now s.delay_buffer,
      over,
      sorted,
    )
