-- ===== src/Udp/Receive.antt =====
-- src/apps/netsim_udp/main.cpp: a datagram from a modem reaches the modems that it is meant for.
use netsim.Prelude.{
  ◌≡◌, true, Bool, Bool-cases, inl, inr, not, ◌&&◌, ◌||◌, List, [], ◌∷◌, some, if◌then◌else◌, arith,
}
use netsim.Prelude.Int.{ℤ, eqb_ℤ, eqb_ℤ_iff}
use netsim.Prelude.Maps.{lookup, contains, int_key}
use netsim.Prelude.Text.{Text, nat_text, text_key}
use netsim.Udp.{ModemTransmission, ModemEndPoint, NetSimUdpConfig, Publication, NetSimUdp}
use netsim.Udp.Routing.{add_modem, add_modems, others, receive}
use netsim.Udp.Forwarding.{IsOrdered, Forwarded, count, forward_packet-Requested}
use netsim.Udp.Tables.{
  HasDistinct, lookup-insert, others-AreKnown, insert-HasDistinct, count-others, still_there,
}
use netsim.Udp.ForwardAll.{Forwarded-none, forward_all-Forwarded}

-- The tables name only modems that are there.
pub record IsConfigured {ℓ} {D : Type ℓ} (s : NetSimUdp D) : Type 0 where
  pub endpoints :
      (e : Text) (i : ℤ) → lookup e s.endpoint_to_id ≡ some i → contains i s.modems ≡ true
  pub tcp_ports :
      (p : Text) (i : ℤ) → lookup p s.tcp_port_to_id ≡ some i → contains i s.modems ≡ true

module _ {ℓ} {D : Type ℓ} where
  -- A configured modem keeps the tables sound.
  add_modem-IsConfigured :
      (m : ModemEndPoint) (s : NetSimUdp D) → IsConfigured s → IsConfigured (add_modem m s)
  unfolding add_modem
  add_modem-IsConfigured m s h = record {
    endpoints = λ e i found.
        still_there m.modem_id i m s.modems
          (elim (lookup-insert m.endpoint e m.modem_id i s.endpoint_to_id found) [
            | inl old ↦ inl (h.endpoints e i old)
            | inr new ↦ inr new
          ]);
    tcp_ports = λ p i found.
        still_there m.modem_id i m s.modems
          (elim (lookup-insert (nat_text m.modem_tcp_port) p m.modem_id i s.tcp_port_to_id found) [
            | inl old ↦ inl (h.tcp_ports p i old)
            | inr new ↦ inr new
          ]);
  }

  -- The constructor's tables name only modems that are there, whatever the configuration repeats.
  pub add_modems-IsConfigured :
      (ms : List ModemEndPoint) (s : NetSimUdp D) → IsConfigured s → IsConfigured (add_modems ms s)
  unfolding add_modems
  add_modems-IsConfigured [] s h = h
  add_modems-IsConfigured (m ∷ ms) s h =
      add_modems-IsConfigured ms (add_modem m s) (add_modem-IsConfigured m s h)

  -- The constructor's modems are different ones.
  pub add_modems-HasDistinct :
      (ms : List ModemEndPoint) (s : NetSimUdp D)
      → HasDistinct s.modems
      → HasDistinct (add_modems ms s).modems
  unfolding add_modems add_modem
  add_modems-HasDistinct [] s h = h
  add_modems-HasDistinct (m ∷ ms) s h =
      add_modems-HasDistinct ms (add_modem m s) (insert-HasDistinct m.modem_id m s.modems h)

  module _ (broadcast_id : ℤ) where
    -- Whether a message from `src` is meant for modem `i`.
    abbrev pub is_meant : NetSimUdpConfig D → ℤ → ModemTransmission D → NetSimUdp D → ℤ → Bool
    is_meant cfg src msg s i =
        contains i s.modems
        && (if not msg.is_ack && (cfg.send_all_as_broadcast || eqb_ℤ msg.dest broadcast_id)
            then not (eqb_ℤ i src)
            else eqb_ℤ i msg.dest)

    -- All modems that it is meant for, each once.
    abbrev pub Meant : NetSimUdpConfig D → ℤ → ModemTransmission D → NetSimUdp D → List ℤ → Type 0
    Meant cfg src msg s dests =
        (i : ℤ) → count i dests ≡ (if is_meant cfg src msg s i then 1 else 0)

    -- A message from a configured endpoint throws nothing and is queued once for each modem that it
    -- is meant for, behind what waits there already: for a broadcast, or for every message but an
    -- acknowledgment if all are sent as broadcasts, that is each other modem, else the addressed
    -- one if it is configured. No other queue changes. The tables are sound and of different modems, and
    -- the queues sorted.
    pub receive-Forwarded :
        (cfg : NetSimUdpConfig D) (udp_src : Text) (src : ℤ) (msg : ModemTransmission D)
        (s : NetSimUdp D)
        → IsConfigured s
        → HasDistinct s.modems
        → IsOrdered s
        → lookup udp_src s.endpoint_to_id ≡ some src
        → (s' : NetSimUdp D) × (ps : List (Publication D)) × (dests : List ℤ) × (receive
              broadcast_id cfg udp_src msg s
            ≡ some (s', ps))
          × Meant cfg src msg s dests
          × Forwarded src dests msg s s'
    unfolding receive count
    receive-Forwarded cfg udp_src src msg s ok distinct ordered from =
        let known = ok.endpoints udp_src src from in
        let broadcast =
          not msg.is_ack && (cfg.send_all_as_broadcast || eqb_ℤ msg.dest broadcast_id) in
        elim (Bool-cases broadcast) [
          | inl to_all ↦
              let (s', ps, e, f) =
                forward_all-Forwarded cfg src (others src s.modems) msg s known
                  (others-AreKnown src s.modems) ordered in
              (
                s',
                ps,
                others src s.modems,
                rw (receive, from) (rw to_all e),
                λ i. ground (arith, to_all, count-others src i s.modems, distinct i),
                f,
              )
          | inr to_one ↦ elim (Bool-cases (contains msg.dest s.modems)) [
            | inl there ↦
                let (s', ps, e, f) =
                  forward_packet-Requested cfg src msg.dest msg s known there ordered in
                (
                  s',
                  ps,
                  msg.dest ∷ [],
                  rw (receive, from) (rw (to_one, there) e),
                  λ i. ground (arith, to_one, there, eqb_ℤ_iff msg.dest i, eqb_ℤ_iff i msg.dest),
                  f,
                )
            | inr unknown ↦ (
              s,
              [],
              [],
              rw (receive, from) (rw (to_one, unknown)),
              λ i. ground (arith, to_one, unknown, eqb_ℤ_iff i msg.dest),
              Forwarded-none src msg s ordered,
            )
          ]
        ]
