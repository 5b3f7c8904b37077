-- ===== src/Udp/Routing.antt =====
-- src/apps/netsim_udp/main.cpp: the constructor's tables and the way of a datagram from a modem to
-- the packets that wait for an impulse response. `none` is an exception of `std::map::at`.
use netsim.Prelude.{not, ◌&&◌, ◌||◌, List, [], ◌∷◌, ◌++◌, Option, none, some, if◌then◌else◌}
use netsim.Prelude.Int.{ℤ, pos, ◌+ℤ◌, eqb_ℤ}
use netsim.Prelude.Maps.{Map, lookup, insert, assign, contains, int_key}
use netsim.Prelude.Multimaps as Multimaps
use netsim.Prelude.Multimaps.{Multimap, equal_range, equal_range-insert, IsSorted, insert-IsSorted}
use netsim.Prelude.Text.{Text, nat_text, text_key}
use netsim.Udp.{
  ModemTransmission, ModemEndPoint, PacketSuccessMethod, NetSimUdpConfig, Publication,
  impulse_request, performance_request, NetSimUdp,
}

-- The ids of the modems other than `src`.
unfoldable pub others : ℤ → Map ℤ ModemEndPoint → List ℤ
others src [] = []
others src ((id, _) ∷ ms) =
    let rest = others src ms in if not (eqb_ℤ id src) then id ∷ rest else rest

module _ {ℓ} {D : Type ℓ} where
  -- One modem of the configuration in the tables of the constructor.
  unfoldable pub add_modem : ModemEndPoint → NetSimUdp D → NetSimUdp D
  add_modem m s = record s {
    modems = insert m.modem_id m s.modems;
    endpoint_to_id = insert m.endpoint m.modem_id s.endpoint_to_id;
    tcp_port_to_id = insert (nat_text m.modem_tcp_port) m.modem_id s.tcp_port_to_id;
  }

  unfoldable pub add_modems : List ModemEndPoint → NetSimUdp D → NetSimUdp D
  add_modems [] s = s
  add_modems (m ∷ ms) s = add_modems ms (add_modem m s)

  -- `std::to_string(modems_.at(id).modem_tcp_port())`
  unfoldable pub port_text : ℤ → NetSimUdp D → Option Text
  port_text id s = elim (lookup id s.modems) [
    | none ↦ none
    | some m ↦ some (nat_text m.modem_tcp_port)
  ]

  -- `performance_request`
  unfoldable pub request_performance : ℤ → ℤ → NetSimUdp D → Option (NetSimUdp D × Publication D)
  request_performance src dest s = elim (port_text src s) [
    | none ↦ none
    | some contact ↦ elim (port_text dest s) [
      | none ↦ none
      | some node ↦ some (
        record s { perf_req_id = s.perf_req_id +ℤ pos 1 },
        performance_request
            (record { request_id = s.perf_req_id; source = contact; receiver = node }),
      )
    ]
  ]

  -- The entry of `forward_buffer_`, which `operator[]` makes.
  abbrev pub waiting_from : ℤ → NetSimUdp D → Multimap (ModemTransmission D)
  waiting_from src s = elim (lookup src s.forward_buffer) [ none ↦ [] | some m ↦ m ]

  unfoldable pub request_impulse :
      ℤ → ℤ → ModemTransmission D → NetSimUdp D → Option (NetSimUdp D × Publication D)
  request_impulse src dest msg s = elim (port_text src s) [
    | none ↦ none
    | some source ↦ elim (port_text dest s) [
      | none ↦ none
      | some receiver ↦ some (
        record s {
          imp_req_id = s.imp_req_id +ℤ pos 1;
          forward_buffer =
              assign src (Multimaps.insert dest msg (waiting_from src s)) s.forward_buffer;
        },
        impulse_request
            (record { request_id = s.imp_req_id; source = source; receiver = receiver }),
      )
    ]
  ]

  unfoldable pub forward_packet :
      NetSimUdpConfig D
      → ℤ
      → ℤ
      → ModemTransmission D
      → NetSimUdp D
      → Option (NetSimUdp D × List (Publication D))
  forward_packet cfg src dest msg s = elim cfg.packet_success_method [
    | PacketSuccessMethod.mpp ↦ elim (request_performance src dest s) [
      | none ↦ none
      | some (s1, p) ↦ elim (request_impulse src dest msg s1) [
        | none ↦ none
        | some (s2, q) ↦ some (s2, p ∷ q ∷ [])
      ]
    ]
    | _ ↦ elim (request_impulse src dest msg s) [ none ↦ none | some (s1, q) ↦ some (s1, q ∷ []) ]
  ]

  unfoldable pub forward_all :
      NetSimUdpConfig D
      → ℤ
      → List ℤ
      → ModemTransmission D
      → NetSimUdp D
      → Option (NetSimUdp D × List (Publication D))
  forward_all cfg src [] msg s = some (s, [])
  forward_all cfg src (dest ∷ dests) msg s = elim (forward_packet cfg src dest msg s) [
    | none ↦ none
    | some (s1, ps) ↦ elim (forward_all cfg src dests msg s1) [
      | none ↦ none
      | some (s2, qs) ↦ some (s2, ps ++ qs)
    ]
  ]

  -- `goby::acomms::BROADCAST_ID` is Goby's.
  module _ (broadcast_id : ℤ) where
    -- The callback of `udp_in`, for a message from the endpoint `udp_src`.
    unfoldable pub receive :
        NetSimUdpConfig D
        → Text
        → ModemTransmission D
        → NetSimUdp D
        → Option (NetSimUdp D × List (Publication D))
    receive cfg udp_src msg s = elim (lookup udp_src s.endpoint_to_id) [
      | none ↦ some (s, [])
      | some src ↦
          if not msg.is_ack && (cfg.send_all_as_broadcast || eqb_ℤ msg.dest broadcast_id)
          then forward_all cfg src (others src s.modems) msg s
          else if contains msg.dest s.modems
          then forward_packet cfg src msg.dest msg s
          else some (s, [])
    ]
