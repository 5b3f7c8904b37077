-- ===== src/Udp/Examples.antt =====
-- Runs of `NetSimUDP` over whole numbers, with three modems.
use netsim.Prelude.{
  ℕ, ◌≡◌, ◌++◌, refl, true, false, ◌&&◌, List, [], ◌∷◌, Option, none, some, All, arith, subst,
  if◌then◌else◌, map,
}
use netsim.Prelude.Int.{ℤ, pos, negsuc, eqb_ℤ, ltb_ℤ}
use netsim.Prelude.Floats.{int_double, int_ranked}
use netsim.Prelude.Maps.{lookup, assign, insert, contains, int_key}
use netsim.Prelude.Multimaps.{Multimap, IsSorted}
use netsim.Prelude.Text.{Text, text_key, nat_text, digits}
use netsim.Udp.{
  ModemTransmission, ModemEndPoint, PacketSuccessMethod, NetSimUdpConfig, ModemPairPerformance,
  IoData, Publication, udp_out, NetSimUdp,
}
use netsim.Udp.Routing.{add_modems, add_modem, receive, others}
use netsim.Udp.Forwarding.{Forwarded, count, IsOrdered, waiting}
use netsim.Udp.Tables.{HasDistinct}
use netsim.Udp.Receive.{
  IsConfigured, Meant, add_modems-IsConfigured, add_modems-HasDistinct, receive-Forwarded,
}
use netsim.Udp.Delay.{loop, loop_lem}
use netsim.Udp.Performance.{
  mpp_transmit_probability, set_mpp, same_pair, has_pair, mpp_probab, probability-set_mpp,
}
use netsim.Udp.Response.{
  RayTrace, ImpulseResponse, Environment, travel_time, strongest, success_probability,
  process_impulse_response, endpoint_of,
}
use netsim.Udp.Response.Release.{Adds, deliveries, way, response-Adds}
use netsim.Udp.Response.TravelTime.{Found, travel_time_lem}
use netsim.Udp.Response.Stuck.{response-leaves_zero}

abbrev modem : ℕ → ModemEndPoint
modem n = record { modem_tcp_port = n; modem_id = pos n; endpoint = n ∷ [] }

abbrev cfg : NetSimUdpConfig ℤ
cfg = record {
  modem = modem 1 ∷ modem 2 ∷ modem 3 ∷ [];
  send_all_as_broadcast = true;
  packet_success_method = PacketSuccessMethod.all_packets_succeed;
  sound_speed = pos 1500;
}

abbrev empty : NetSimUdp ℤ
empty = record {
  modems = [];
  endpoint_to_id = [];
  tcp_port_to_id = [];
  perf_table = [];
  forward_buffer = [];
  delay_buffer = [];
  imp_req_id = pos 0;
  perf_req_id = pos 0;
}

empty-IsConfigured : IsConfigured empty
unfolding lookup contains
empty-IsConfigured = record {
  endpoints = λ e i found. absurd (ground (arith, found));
  tcp_ports = λ p i found. absurd (ground (arith, found));
}

add_modems-IsConfigured_example : IsConfigured (add_modems (cfg.modem) empty)
add_modems-IsConfigured_example = add_modems-IsConfigured (cfg.modem) empty empty-IsConfigured

abbrev message : ModemTransmission ℤ
message = record {
  dest = pos 2;
  is_ack = false;
  time = pos 1000;
  frames = [];
  one_way_travel_time = [];
}

abbrev started : NetSimUdp ℤ
started = record empty {
  modems = (pos 1, modem 1) ∷ (pos 2, modem 2) ∷ (pos 3, modem 3) ∷ [];
  endpoint_to_id = (1 ∷ [], pos 1) ∷ (2 ∷ [], pos 2) ∷ (3 ∷ [], pos 3) ∷ [];
  tcp_port_to_id = (nat_text 1, pos 1) ∷ (nat_text 2, pos 2) ∷ (nat_text 3, pos 3) ∷ [];
}

added : add_modems (cfg.modem) empty ≡ started
unfolding add_modems add_modem assign insert contains nat_text digits
added = refl

started-IsConfigured : IsConfigured started
started-IsConfigured = subst IsConfigured added add_modems-IsConfigured_example

empty-HasDistinct : HasDistinct empty.modems
unfolding contains count
empty-HasDistinct i = refl

started-HasDistinct : HasDistinct started.modems
started-HasDistinct =
    subst (λ (s : NetSimUdp ℤ). HasDistinct s.modems) added
      (add_modems-HasDistinct cfg.modem empty empty-HasDistinct)

started-IsOrdered : IsOrdered started
unfolding lookup
started-IsOrdered i = tt

endpoint_one : lookup (1 ∷ []) (started.endpoint_to_id) ≡ some (pos 1)
unfolding lookup
endpoint_one = refl

-- Modem 1 sends to modem 2, and modem 3 hears it too.
receive-Forwarded_example :
    (s' : NetSimUdp ℤ) × (ps : List (Publication ℤ)) × (dests : List ℤ) × (receive
        (pos 0)
        cfg
        (1 ∷ [])
        message
        started
      ≡ some (s', ps))
    × Meant (pos 0) cfg (pos 1) message started dests
    × Forwarded (pos 1) dests message started s'
receive-Forwarded_example =
    receive-Forwarded (pos 0) cfg (1 ∷ []) (pos 1) message started started-IsConfigured
      started-HasDistinct started-IsOrdered endpoint_one

others_one : others (pos 1) started.modems ≡ pos 2 ∷ pos 3 ∷ []
unfolding others
others_one = refl

abbrev waiting_one : NetSimUdp ℤ
waiting_one = record started {
  forward_buffer = (pos 1, (pos 2, message) ∷ (pos 3, message) ∷ []) ∷ [];
}

waiting_one-IsConfigured : IsConfigured waiting_one
waiting_one-IsConfigured = record {
  endpoints = started-IsConfigured.endpoints;
  tcp_ports = started-IsConfigured.tcp_ports;
}

abbrev env : Environment ℤ
env = record {
  outlier = some (pos 2);
  flip = λ n p. true;
  linear_interpolate = λ x. x;
  micro_time = λ x. x;
}

abbrev ray : ℤ → ℤ → RayTrace ℤ
ray amplitude delay = record {
  amplitude = amplitude;
  surface_bounces = pos 1;
  bottom_bounces = pos 2;
  element = delay ∷ [];
}

abbrev response : ImpulseResponse ℤ
response = record {
  source = nat_text 1;
  receiver = nat_text 2;
  raytrace = ray (pos 3) (pos 50) ∷ ray (negsuc 6) (pos 40) ∷ [];
}

ports_known :
    (lookup (nat_text 1) (started.tcp_port_to_id) ≡ some (pos 1))
    × (lookup (nat_text 2) (started.tcp_port_to_id) ≡ some (pos 2))
unfolding lookup nat_text digits
ports_known = (refl, refl)

strongest_ray : travel_time (response.raytrace) ≡ some (some (pos 40))
unfolding travel_time strongest
strongest_ray = refl

response-Adds_example :
    let owtt = way env (pos 40) in
    (s' : NetSimUdp ℤ) × (e : Text) × (process_impulse_response cfg env response waiting_one
      ≡ some s')
    × (endpoint_of (pos 2) waiting_one ≡ some e)
    × Adds
        (deliveries env
          (success_probability cfg env (pos 1) (pos 2) owtt waiting_one)
          owtt
          e
          0
          (waiting (pos 1) (pos 2) waiting_one))
        []
        s'.delay_buffer
    × ((i j : ℤ)
        → waiting i j s'
          ≡ (if eqb_ℤ (pos 1) i && eqb_ℤ (pos 2) j then [] else waiting i j waiting_one))
response-Adds_example =
    response-Adds cfg env response (pos 1) (pos 2) (pos 40) (ray (pos 3) (pos 50))
      (ray (negsuc 6) (pos 40) ∷ []) waiting_one waiting_one-IsConfigured tt ports_known.0
      ports_known.1 refl refl strongest_ray

travel_time_lem_example :
    let rays = ray (pos 0) (pos 50) ∷ ray (negsuc 0) (pos 60) ∷ [] in
    (result : Option ℤ) × (travel_time rays ≡ some result) × Found (pos 0) none rays result
travel_time_lem_example =
    travel_time_lem int_ranked (ray (pos 0) (pos 50) ∷ ray (negsuc 0) (pos 60) ∷ []) (tt, (tt, tt))

abbrev datagram : Text → IoData ℤ
datagram e = record { message = message; udp_dest = e }

abbrev delaying : NetSimUdp ℤ
delaying = record started {
  delay_buffer = (pos 1042, datagram (2 ∷ [])) ∷ (pos 1050, datagram (3 ∷ [])) ∷ [];
}

loop_lem_example :
    (due : Multimap (IoData ℤ)) × (later : Multimap (IoData ℤ)) × (loop (pos 1042) delaying
      ≡ (record delaying { delay_buffer = later }, map (λ p. udp_out p.1) due))
    × (due ++ later ≡ delaying.delay_buffer)
    × All (λ p. ltb_ℤ (pos 1042) p.0 ≡ false) due
    × All (λ p. ltb_ℤ (pos 1042) p.0 ≡ true) later
    × IsSorted later
loop_lem_example = loop_lem (pos 1042) delaying ((refl, tt), (tt, tt))

abbrev table : List (ModemPairPerformance ℤ)
table = record { src_id = pos 2; dest_id = pos 1; mpp = pos 80 } ∷ []

probability-set_mpp_example :
    mpp_transmit_probability (pos 1) (pos 2) (set_mpp (pos 1) (pos 2) (pos 30) table) ≡ (
      if same_pair (pos 1) (pos 2) (pos 1) (pos 2) && has_pair (pos 1) (pos 2) table
      then mpp_probab (pos 30)
      else mpp_transmit_probability (pos 1) (pos 2) table)
probability-set_mpp_example = probability-set_mpp (pos 1) (pos 2) (pos 1) (pos 2) (pos 30) table

abbrev to_zero : NetSimUdp ℤ
to_zero = record started {
  tcp_port_to_id = (nat_text 1, pos 1) ∷ (nat_text 2, pos 0) ∷ [];
  forward_buffer = (pos 1, (pos 0, message) ∷ []) ∷ [];
}

zero_returns : process_impulse_response cfg env response to_zero ≡ some to_zero
unfolding process_impulse_response lookup nat_text digits
zero_returns = refl

response-leaves_zero_example : waiting (pos 1) (pos 0) to_zero ≡ waiting (pos 1) (pos 0) to_zero
response-leaves_zero_example =
    response-leaves_zero cfg env response (pos 1) to_zero to_zero zero_returns
