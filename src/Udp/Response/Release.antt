-- ===== src/Udp/Response/Release.antt =====
-- src/apps/netsim_udp/main.cpp: where the packets go that an impulse response releases.
use netsim.Prelude.{
  ℕ, ◌+◌, ◌≡◌, refl, sym, ap, ◌∙◌, true, false, Bool-cases, inl, inr, ◌&&◌, List, [], ◌∷◌, ◌++◌,
  Option, none, some, Option-cases, if◌then◌else◌, arith, append-nil, append_assoc,
}
use netsim.Prelude.Int.{ℤ, pos, eqb_ℤ, eqb_ℤ_iff}
use netsim.Prelude.Floats.{Double, of_nat}
use netsim.Prelude.Maps.{lookup, contains, int_key, contains-eq-lookup}
use netsim.Prelude.Multimaps.{
  Multimap, insert, equal_range, erase, IsSorted, insert-IsSorted, equal_range-insert,
  equal_range-erase,
}
use netsim.Prelude.Text.{Text, text_key}
use netsim.Udp.{ModemTransmission, NetSimUdpConfig, IoData, NetSimUdp}
use netsim.Udp.Routing.{waiting_from}
use netsim.Udp.Forwarding.{waiting, waiting_from-assign}
use netsim.Udp.Receive.{IsConfigured}
use netsim.Udp.Response.{
  RayTrace, ImpulseResponse, Environment, travel_time, success_probability, packet_success, delayed,
  release, endpoint_of, taken, respond, process_impulse_response,
}

module _ {ℓ} {D : Type ℓ} ⦃d : Double D⦄ where
  -- What the packets become that succeed, each once and in order.
  unfoldable pub deliveries :
      Environment D → Option D → D → Text → ℕ → List (ModemTransmission D) → Multimap (IoData D)
  deliveries env p owtt e n [] = []
  deliveries env p owtt e n (msg ∷ msgs) =
      let rest = deliveries env p owtt e (n + 1) msgs in
      if packet_success env p n then delayed env owtt e msg ∷ rest else rest

  -- The delay buffer with more entries: it is sorted, and each entry stands behind those that were
  -- due at the same time before.
  pub record Adds (more old new : Multimap (IoData D)) : Type ℓ where
    pub sorted : IsSorted new
    pub at_time : (t : ℤ) → equal_range t new ≡ equal_range t old ++ equal_range t more

  Adds-insert :
      (t : ℤ) (out : IoData D) (more old new : Multimap (IoData D))
      → IsSorted old
      → Adds more (insert t out old) new
      → Adds ((t, out) ∷ more) old new
  unfolding equal_range
  Adds-insert t out more old new sorted adds = record {
    sorted = adds.sorted;
    at_time = λ u.
        adds.at_time u
        ∙ ap (λ l. l ++ equal_range u more) (equal_range-insert t u out old sorted)
        ∙ elim (Bool-cases (eqb_ℤ t u)) [
          | inl now ↦ rw now (append_assoc (equal_range u old) (out ∷ []) (equal_range u more))
          | inr other ↦ rw other
        ];
  }

  release-Adds :
      (env : Environment D) (p : Option D) (owtt : D) (e : Text) (n : ℕ)
      (msgs : List (ModemTransmission D)) (buffer : Multimap (IoData D))
      → IsSorted buffer
      → (buffer' : Multimap (IoData D)) × (release env p owtt (some e) n msgs buffer ≡ some buffer')
        × Adds (deliveries env p owtt e n msgs) buffer buffer'
  unfolding release deliveries equal_range
  release-Adds env p owtt e n [] buffer sorted = (
    buffer,
    refl,
    record { sorted = sorted; at_time = λ t. sym (append-nil (equal_range t buffer)) },
  )
  release-Adds env p owtt e n (msg ∷ msgs) buffer sorted =
      elim (Bool-cases (packet_success env p n)) [
        | inl success ↦
            let (due, out) = delayed env owtt e msg in
            let (buffer', sent, adds) =
              release-Adds env p owtt e (n + 1) msgs (insert due out buffer)
                (insert-IsSorted due out buffer sorted) in
            (
              buffer',
              rw success sent,
              rw success (Adds-insert due out _ buffer buffer' sorted adds),
            )
        | inr failure ↦
            let (buffer', sent, adds) = release-Adds env p owtt e (n + 1) msgs buffer sorted in
            (buffer', rw failure sent, rw failure adds)
      ]

  pub taken-waiting :
      (src dest i j : ℤ) (s : NetSimUdp D)
      → waiting i j (taken src dest s) ≡ (if eqb_ℤ src i && eqb_ℤ dest j then [] else waiting i j s)
  unfolding taken
  taken-waiting src dest i j s =
      let m = erase dest (waiting_from src s) in
      ap (equal_range j) (waiting_from-assign src i m s) ∙ (elim (Bool-cases (eqb_ℤ src i)) [
        | inl same ↦ rw same (
            equal_range-erase dest j (waiting_from src s)
            ∙ ap (λ k. if eqb_ℤ dest j then [] else waiting k j s) ((eqb_ℤ_iff src i).0 same))
        | inr other ↦ rw other
      ])

  -- The travel time of a packet, with the outlier that was drawn.
  abbrev pub way : Environment D → D → D
  way env first_arrival =
      d.add first_arrival (elim env.outlier [ none ↦ of_nat 0 | some outlier_time ↦ outlier_time ])

  endpoint_of-known :
      (id : ℤ) (s : NetSimUdp D)
      → contains id s.modems ≡ true
      → (e : Text) × (endpoint_of id s ≡ some e)
  unfolding endpoint_of
  endpoint_of-known id s h = elim (Option-cases (lookup id s.modems)) [
    | inl none_there ↦ absurd (ground (arith, contains-eq-lookup id s.modems, none_there, h))
    | inr (m, found) ↦ (m.endpoint, rw (endpoint_of, found))
  ]

  response-eq :
      (cfg : NetSimUdpConfig D) (env : Environment D) (r : ImpulseResponse D) (src dest : ℤ)
      (first_arrival : D) (ray : RayTrace D) (rays : List (RayTrace D)) (s : NetSimUdp D) (e : Text)
      (buffer : Multimap (IoData D))
      → lookup r.source s.tcp_port_to_id ≡ some src
      → lookup r.receiver s.tcp_port_to_id ≡ some dest
      → eqb_ℤ dest (pos 0) ≡ false
      → r.raytrace ≡ ray ∷ rays
      → travel_time (ray ∷ rays) ≡ some (some first_arrival)
      → endpoint_of dest s ≡ some e
      → (let owtt = way env first_arrival in
          release env
            (success_probability cfg env src dest owtt s)
            owtt
            (some e)
            0
            (waiting src dest s)
            s.delay_buffer
          ≡ some buffer)
      → process_impulse_response cfg env r s
        ≡ some (record (taken src dest s) { delay_buffer = buffer })
  unfolding process_impulse_response respond
  response-eq cfg env r src dest first_arrival ray rays s e buffer from_src to_dest not_zero heard
        arrives at sent =
      rw (process_impulse_response, from_src)
        (rw to_dest (rw not_zero (rw heard (rw (respond, arrives) (rw at (rw sent))))))

  -- An impulse response with a travel time, between two modems of the tables of which the receiver
  -- does not have the id 0, takes away all packets that wait for this pair and no others. It adds
  -- each that succeeds to the delay buffer once, with its travel time, for the receiver's endpoint,
  -- behind the entries that are due at the same time. The buffer stays sorted, and nothing is thrown.
  pub response-Adds :
      (cfg : NetSimUdpConfig D) (env : Environment D) (r : ImpulseResponse D) (src dest : ℤ)
      (first_arrival : D) (ray : RayTrace D) (rays : List (RayTrace D)) (s : NetSimUdp D)
      → IsConfigured s
      → IsSorted s.delay_buffer
      → lookup r.source s.tcp_port_to_id ≡ some src
      → lookup r.receiver s.tcp_port_to_id ≡ some dest
      → eqb_ℤ dest (pos 0) ≡ false
      → r.raytrace ≡ ray ∷ rays
      → travel_time (ray ∷ rays) ≡ some (some first_arrival)
      → let owtt = way env first_arrival in
        (s' : NetSimUdp D) × (e : Text) × (process_impulse_response cfg env r s ≡ some s')
        × (endpoint_of dest s ≡ some e)
        × Adds
            (deliveries env
              (success_probability cfg env src dest owtt s)
              owtt
              e
              0
              (waiting src dest s))
            s.delay_buffer
            s'.delay_buffer
        × ((i j : ℤ) → waiting i j s' ≡ (if eqb_ℤ src i && eqb_ℤ dest j then [] else waiting i j s))
  unfolding taken
  response-Adds cfg env r src dest first_arrival ray rays s ok sorted from_src to_dest not_zero
        heard arrives =
      let owtt = way env first_arrival in
      let (e, at) = endpoint_of-known dest s (ok.tcp_ports r.receiver dest to_dest) in
      let (buffer, sent, adds) =
        release-Adds env (success_probability cfg env src dest owtt s) owtt e 0 (waiting src dest s)
          s.delay_buffer sorted in
      (
        record (taken src dest s) { delay_buffer = buffer },
        e,
        response-eq cfg env r src dest first_arrival ray rays s e buffer from_src to_dest not_zero
            heard arrives at sent,
        at,
        adds,
        λ i j. taken-waiting src dest i j s,
      )
