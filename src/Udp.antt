-- ===== src/Udp.antt =====
-- src/apps/netsim_udp/main.cpp: `NetSimUDP`, which carries packets between modem endpoints with the
-- delay and the loss that the environment gives. Goby's messages have the fields that the code uses.
pub mod Routing
pub mod Forwarding
pub mod ForwardAll
pub mod Tables
pub mod Receive
pub mod Delay
pub mod Performance
pub mod Response
mod Examples
use netsim.Prelude.{ℕ, Bool, List, Option}
use netsim.Prelude.Int.{ℤ}
use netsim.Prelude.Maps.{Map}
use netsim.Prelude.Multimaps.{Multimap}
use netsim.Prelude.Text.{Text}

-- What the code reads and writes of a `ModemTransmission`; `time` is in microseconds.
pub record ModemTransmission {ℓ} (D : Type ℓ) : Type ℓ where
  pub dest : ℤ
  pub is_ack : Bool
  pub time : ℤ
  pub frames : List Text
  pub one_way_travel_time : List D

pub record ModemEndPoint : Type 0 where
  pub modem_tcp_port : ℕ
  pub modem_id : ℤ
  pub endpoint : Text

pub data PacketSuccessMethod : Type 0 where
  all_packets_succeed range_table mpp : PacketSuccessMethod

pub record NetSimUdpConfig {ℓ} (D : Type ℓ) : Type ℓ where
  pub modem : List ModemEndPoint
  pub send_all_as_broadcast : Bool
  pub packet_success_method : PacketSuccessMethod
  pub sound_speed : D

pub record ModemPairPerformance {ℓ} (D : Type ℓ) : Type ℓ where
  pub src_id : ℤ
  pub dest_id : ℤ
  pub mpp : D

-- A datagram that is to be sent, before it is serialized.
pub record IoData {ℓ} (D : Type ℓ) : Type ℓ where
  pub message : ModemTransmission D
  pub udp_dest : Text

pub record Request : Type 0 where
  pub request_id : ℤ
  pub source : Text
  pub receiver : Text

-- What is published.
pub data Publication {ℓ} (D : Type ℓ) : Type ℓ where
  performance_request : Request → Publication D
  impulse_request : Request → Publication D
  udp_out : IoData D → Publication D

pub record NetSimUdp {ℓ} (D : Type ℓ) : Type ℓ where
  pub modems : Map ℤ ModemEndPoint
  pub endpoint_to_id : Map Text ℤ
  pub tcp_port_to_id : Map Text ℤ
  pub perf_table : List (ModemPairPerformance D)
  pub forward_buffer : Map ℤ (Multimap (ModemTransmission D))
  pub delay_buffer : Multimap (IoData D)
  pub imp_req_id : ℤ
  pub perf_req_id : ℤ
