-- ===== src/Udp/Response/Stuck.antt =====
-- src/apps/netsim_udp/main.cpp: the guard at the top of `process_impulse_response`.
use netsim.Prelude.{
  ◌≡◌, refl, ◌∙◌, subst, false, Bool-cases, inl, inr, ◌&&◌, List, [], ◌∷◌, Option, none, some,
  Option-cases, if-false, arith,
}
use netsim.Prelude.Int.{ℤ, pos, eqb_ℤ}
use netsim.Prelude.Floats.{Double}
use netsim.Prelude.Maps.{lookup}
use netsim.Prelude.Text.{text_key}
use netsim.Udp.{NetSimUdpConfig, NetSimUdp}
use netsim.Udp.Forwarding.{waiting}
use netsim.Udp.Response.{
  RayTrace, ImpulseResponse, Environment, travel_time, success_probability, release, endpoint_of,
  taken, respond, process_impulse_response,
}
use netsim.Udp.Response.Release.{taken-waiting, way}

module _ {ℓ} {D : Type ℓ} ⦃d : Double D⦄ where
  -- A call that returns leaves these packets waiting.
  abbrev Leaves : ℤ → ℤ → NetSimUdp D → Option (NetSimUdp D) → Type ℓ
  Leaves i j s r = elim r [ none ↦ Unit | some s' ↦ waiting i j s' ≡ waiting i j s ]

  left_waiting :
      (src dest i j : ℤ) (s : NetSimUdp D)
      → eqb_ℤ dest j ≡ false
      → waiting i j (taken src dest s) ≡ waiting i j s
  left_waiting src dest i j s other =
      taken-waiting src dest i j s
      ∙ if-false (eqb_ℤ src i && eqb_ℤ dest j) [] (waiting i j s) (ground (arith, other))

  respond-Leaves :
      (cfg : NetSimUdpConfig D) (env : Environment D) (src dest i j : ℤ) (rays : List (RayTrace D))
      (s : NetSimUdp D)
      → eqb_ℤ dest j ≡ false
      → Leaves i j s (respond cfg env src dest rays s)
  unfolding respond taken
  respond-Leaves cfg env src dest i j [] s other = left_waiting src dest i j s other
  respond-Leaves cfg env src dest i j (r ∷ rs) s other =
      elim (Option-cases (travel_time (r ∷ rs))) [
        | inl fault ↦ rw (respond, fault) tt
        | inr (delay, e) ↦ elim (Option-cases delay) [
          | inl unset ↦ rw (respond, e) (rw unset tt)
          | inr (t, set) ↦
              let owtt = way env t in
              elim (Option-cases (
                release env (success_probability cfg env src dest owtt s) owtt (endpoint_of dest s)
                  0 (waiting src dest s) s.delay_buffer)) [
                    | inl fault ↦ rw (respond, e) (rw set (rw fault tt))
                    | inr (buffer, sent) ↦
                        rw (respond, e) (rw set (rw sent (left_waiting src dest i j s other)))
                  ]
        ]
      ]

  -- No impulse response takes away a packet that waits for the modem with the id 0, however many
  -- come: a call that returns leaves all of them waiting.
  pub response-leaves_zero :
      (cfg : NetSimUdpConfig D) (env : Environment D) (r : ImpulseResponse D) (i : ℤ)
      (s s' : NetSimUdp D)
      → process_impulse_response cfg env r s ≡ some s'
      → waiting i (pos 0) s' ≡ waiting i (pos 0) s
  unfolding process_impulse_response
  response-leaves_zero cfg env r i s s' returned =
      subst (Leaves i (pos 0) s) returned (elim (Option-cases (lookup r.source s.tcp_port_to_id)) [
        | inl unknown ↦ rw (process_impulse_response, unknown) refl
        | inr (src, from_src) ↦ elim (Option-cases (lookup r.receiver s.tcp_port_to_id)) [
          | inl unknown ↦ rw (process_impulse_response, from_src) (rw unknown tt)
          | inr (dest, to_dest) ↦ elim (Bool-cases (eqb_ℤ dest (pos 0))) [
            | inl zero ↦ rw (process_impulse_response, from_src) (rw to_dest (rw zero refl))
            | inr other ↦
                rw (process_impulse_response, from_src)
                  (rw to_dest
                    (rw other (respond-Leaves cfg env src dest i (pos 0) r.raytrace s other)))
          ]
        ]
      ])
