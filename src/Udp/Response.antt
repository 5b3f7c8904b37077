-- ===== src/Udp/Response.antt =====
-- src/apps/netsim_udp/main.cpp: an impulse response releases the packets that wait for it. `none` is
-- an exception, an access out of bounds or the use of an indeterminate value.
pub mod Release
pub mod TravelTime
pub mod Stuck
use netsim.Prelude.{
  ℕ, zero, suc, ◌+◌, ◌≡◌, refl, Bool, true, false, List, [], ◌∷◌, ◌++◌, Option, none, some,
  if◌then◌else◌, arith,
}
use netsim.Prelude.Int.{ℤ, eqb_ℤ, pos, ◌+ℤ◌}
use netsim.Prelude.Floats.{Double, of_nat}
use netsim.Prelude.Maps.{Map, lookup, assign, int_key}
use netsim.Prelude.Multimaps.{Multimap, insert, equal_range, erase}
use netsim.Prelude.Text.{Text, text_key}
use netsim.Udp.{ModemTransmission, NetSimUdpConfig, PacketSuccessMethod, IoData, NetSimUdp}
use netsim.Udp.Routing.{waiting_from}
use netsim.Udp.Performance.{mpp_transmit_probability}

pub record RayTrace {ℓ} (D : Type ℓ) : Type ℓ where
  pub amplitude : D
  pub surface_bounces : ℤ
  pub bottom_bounces : ℤ
  pub element : List D

pub record ImpulseResponse {ℓ} (D : Type ℓ) : Type ℓ where
  pub source : Text
  pub receiver : Text
  pub raytrace : List (RayTrace D)

-- The random numbers that one call draws (for the n-th packet, with a probability), and what Goby and
-- Boost compute: the interpolated range table and the conversion of seconds to microseconds.
pub record Environment {ℓ} (D : Type ℓ) : Type ℓ where
  pub outlier : Option D
  pub flip : ℕ → D → Bool
  pub linear_interpolate : D → D
  pub micro_time : D → ℤ

module _ {ℓ} {D : Type ℓ} ⦃d : Double D⦄ where
  -- The loop of `travel_time`. The code adds up the bounces of each ray and does not use the sum: the
  -- test of it is a comment. `delay` is `none` as long as it is not initialized.
  unfoldable pub strongest : D → Option D → List (RayTrace D) → Option (Option D)
  strongest max_amp delay [] = some delay
  strongest max_amp delay (r ∷ rs) =
      let louder : Option (Option D) = elim r.element [
        | [] ↦ none
        | first ∷ _ ↦ strongest (d.abs r.amplitude) (some first) rs
      ] in
      let same = strongest max_amp delay rs in
      if d.lt max_amp (d.abs r.amplitude) then louder else same

  unfoldable pub travel_time : List (RayTrace D) → Option (Option D)
  travel_time rays = strongest (of_nat 0) none rays

  -- The probability that a packet succeeds, if it is drawn at all.
  unfoldable pub success_probability :
      NetSimUdpConfig D → Environment D → ℤ → ℤ → D → NetSimUdp D → Option D
  success_probability cfg env src dest owtt s = elim cfg.packet_success_method [
    | PacketSuccessMethod.all_packets_succeed ↦ none
    | PacketSuccessMethod.range_table ↦ some (env.linear_interpolate (d.mul owtt cfg.sound_speed))
    | PacketSuccessMethod.mpp ↦ some (mpp_transmit_probability src dest s.perf_table)
  ]

  unfoldable pub packet_success : Environment D → Option D → ℕ → Bool
  packet_success env none n = true
  packet_success env (some p) n = env.flip n p

  -- The packet with its travel time, and when it is due.
  abbrev pub delayed : Environment D → D → Text → ModemTransmission D → ℤ × IoData D
  delayed env owtt endpoint msg = (
    msg.time +ℤ env.micro_time owtt,
    record {
      message = record msg { one_way_travel_time = msg.one_way_travel_time ++ owtt ∷ [] };
      udp_dest = endpoint;
    },
  )

  -- The loop over the packets, from the n-th one on; `endpoint` is looked up for each that succeeds.
  unfoldable pub release :
      Environment D
      → Option D
      → D
      → Option Text
      → ℕ
      → List (ModemTransmission D)
      → Multimap (IoData D)
      → Option (Multimap (IoData D))
  release env p owtt endpoint n [] buffer = some buffer
  release env p owtt endpoint n (msg ∷ msgs) buffer =
      let sent : Option (Multimap (IoData D)) = elim endpoint [
        | none ↦ none
        | some e ↦
            let (due, out) = delayed env owtt e msg in
            release env p owtt endpoint (n + 1) msgs (insert due out buffer)
      ] in
      let dropped = release env p owtt endpoint (n + 1) msgs buffer in
      if packet_success env p n then sent else dropped

  -- `modems_.at(id).endpoint()`
  unfoldable pub endpoint_of : ℤ → NetSimUdp D → Option Text
  endpoint_of id s = elim (lookup id s.modems) [ none ↦ none | some m ↦ some m.endpoint ]

  -- The packets of the pair are taken out of the forward buffer.
  unfoldable pub taken : ℤ → ℤ → NetSimUdp D → NetSimUdp D
  taken src dest s = record s {
    forward_buffer = assign src (erase dest (waiting_from src s)) s.forward_buffer;
  }

  -- The call for a pair of known modems.
  unfoldable pub respond :
      NetSimUdpConfig D
      → Environment D
      → ℤ
      → ℤ
      → List (RayTrace D)
      → NetSimUdp D
      → Option (NetSimUdp D)
  respond cfg env src dest [] s = some (taken src dest s)
  respond cfg env src dest (r ∷ rs) s = elim (travel_time (r ∷ rs)) [
    | none ↦ none
    | some none ↦ none
    | some (some first_arrival) ↦
        let owtt =
          d.add first_arrival
            (elim env.outlier [ none ↦ of_nat 0 | some outlier_time ↦ outlier_time ]) in
        elim (release env (success_probability cfg env src dest owtt s) owtt (endpoint_of dest s) 0
          (equal_range dest (waiting_from src s)) s.delay_buffer) [
            | none ↦ none
            | some buffer ↦ some (record (taken src dest s) { delay_buffer = buffer })
          ]
  ]

  unfoldable pub process_impulse_response :
      NetSimUdpConfig D → Environment D → ImpulseResponse D → NetSimUdp D → Option (NetSimUdp D)
  process_impulse_response cfg env r s = elim (lookup r.source s.tcp_port_to_id) [
    | none ↦ some s
    | some src ↦ elim (lookup r.receiver s.tcp_port_to_id) [
      | none ↦ none
      | some dest ↦ if eqb_ℤ dest (pos 0) then some s else respond cfg env src dest r.raytrace s
    ]
  ]
