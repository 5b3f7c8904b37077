-- ===== src/Udp/Forwarding.antt =====
-- src/apps/netsim_udp/main.cpp: what waits for an impulse response after a datagram.
use netsim.Prelude.{
  ℕ, suc, ◌≡◌, refl, ap, sym, ◌∙◌, subst, true, Bool-cases, inl, inr, List, [], ◌∷◌, ◌++◌, Option,
  none, some, Option-cases, append-nil, replicate, if◌then◌else◌, arith,
}
use netsim.Prelude.Int.{ℤ, pos, ◌+ℤ◌, eqb_ℤ, eqb_ℤ_iff}
use netsim.Prelude.Maps.{lookup, assign, contains, int_key, lookup-assign, contains-eq-lookup}
use netsim.Prelude.Multimaps as Multimaps
use netsim.Prelude.Multimaps.{Multimap, equal_range, equal_range-insert, IsSorted, insert-IsSorted}
use netsim.Prelude.Text.{Text, nat_text, text_key}
use netsim.Udp.{
  ModemTransmission, PacketSuccessMethod, NetSimUdpConfig, Request, Publication, impulse_request,
  performance_request, NetSimUdp,
}
use netsim.Udp.Routing.{
  port_text, request_performance, waiting_from, request_impulse, forward_packet,
}

-- How often an id is a destination.
unfoldable pub count : ℤ → List ℤ → ℕ
count d [] = 0
count d (i ∷ is) = if eqb_ℤ i d then suc (count d is) else count d is

abbrev asked : Text → Text → ℤ → Request
asked source receiver id = record { request_id = id; source = source; receiver = receiver }

module _ {ℓ} {D : Type ℓ} where
  -- The packets that wait from `i` to `d`.
  abbrev pub waiting : ℤ → ℤ → NetSimUdp D → List (ModemTransmission D)
  waiting i d s = equal_range d (waiting_from i s)

  -- Every multimap of the forward buffer is sorted.
  abbrev pub IsOrdered : NetSimUdp D → Type 0
  IsOrdered s = (i : ℤ) → IsSorted (waiting_from i s)

  abbrev pub copies : ℤ → List ℤ → ModemTransmission D → ℤ → ℤ → List (ModemTransmission D)
  copies src dests msg i d = if eqb_ℤ src i then replicate (count d dests) msg else []

  -- The packet has been queued from `src` once for each of `dests`, and nothing else has changed but
  -- the request ids.
  pub record Forwarded (src : ℤ) (dests : List ℤ) (msg : ModemTransmission D) (s s' : NetSimUdp D)
      : Type ℓ where
    pub modems : s'.modems ≡ s.modems
    pub endpoints : s'.endpoint_to_id ≡ s.endpoint_to_id
    pub delayed : s'.delay_buffer ≡ s.delay_buffer
    pub ordered : IsOrdered s'
    pub waits : (i d : ℤ) → waiting i d s' ≡ waiting i d s ++ copies src dests msg i d

  bag : Option (Multimap (ModemTransmission D)) → Multimap (ModemTransmission D)
  bag entry = elim entry [ none ↦ [] | some m ↦ m ]

  pub waiting_from-assign :
      (src i : ℤ) (m : Multimap (ModemTransmission D)) (s : NetSimUdp D)
      → waiting_from i (record s { forward_buffer = assign src m s.forward_buffer })
        ≡ (if eqb_ℤ src i then m else waiting_from i s)
  unfolding bag
  waiting_from-assign src i m s =
      ap bag (lookup-assign src i m s.forward_buffer)
      ∙ elim (Bool-cases (eqb_ℤ src i)) [ inl same ↦ rw same | inr other ↦ rw other ]

  -- A modem's port is known.
  pub port_text-known :
      (id : ℤ) (s : NetSimUdp D)
      → contains id s.modems ≡ true
      → (t : Text) × (port_text id s ≡ some t)
  unfolding port_text
  port_text-known id s h = elim (Option-cases (lookup id s.modems)) [
    | inl none_there ↦ absurd (ground (arith, contains-eq-lookup id s.modems, none_there, h))
    | inr (m, found) ↦ (nat_text m.modem_tcp_port, rw (port_text, found))
  ]

  -- The state after a request.
  abbrev stored : ℤ → ℤ → ModemTransmission D → NetSimUdp D → NetSimUdp D
  stored src dest msg s = record s {
    imp_req_id = s.imp_req_id +ℤ pos 1;
    forward_buffer = assign src (Multimaps.insert dest msg (waiting_from src s)) s.forward_buffer;
  }

  inserted :
      (dest d : ℤ) (msg : ModemTransmission D) (m : Multimap (ModemTransmission D))
      → IsSorted m
      → equal_range d (Multimaps.insert dest msg m)
        ≡ equal_range d m ++ replicate (count d (dest ∷ [])) msg
  unfolding count
  inserted dest d msg m sorted =
      equal_range-insert dest d msg m sorted ∙ elim (Bool-cases (eqb_ℤ dest d)) [
        | inl same ↦ rw same
        | inr other ↦ rw other (sym (append-nil (equal_range d m)))
      ]

  stored-Forwarded :
      (src dest : ℤ) (msg : ModemTransmission D) (s : NetSimUdp D)
      → IsOrdered s
      → Forwarded src (dest ∷ []) msg s (stored src dest msg s)
  stored-Forwarded src dest msg s ordered =
      let m = Multimaps.insert dest msg (waiting_from src s) in
      record {
        modems = refl;
        endpoints = refl;
        delayed = refl;
        ordered = λ i.
            subst IsSorted (sym (waiting_from-assign src i m s)) (elim (Bool-cases (eqb_ℤ src i)) [
              | inl same ↦ rw same (insert-IsSorted dest msg (waiting_from src s) (ordered src))
              | inr other ↦ rw other (ordered i)
            ]);
        waits = λ i d.
            ap (equal_range d) (waiting_from-assign src i m s) ∙ (elim (Bool-cases (eqb_ℤ src i)) [
              | inl same ↦ rw same (
                  inserted dest d msg (waiting_from src s) (ordered src)
                  ∙ ap (λ j. waiting j d s ++ replicate (count d (dest ∷ [])) msg)
                      ((eqb_ℤ_iff src i).0 same))
              | inr other ↦ rw other (sym (append-nil (waiting i d s)))
            ]);
      }

  abbrev counted : NetSimUdp D → NetSimUdp D
  counted s = record s { perf_req_id = s.perf_req_id +ℤ pos 1 }

  -- A request that is sent, with the packet queued behind it.
  abbrev pub Requested :
      ℤ
      → ℤ
      → ModemTransmission D
      → NetSimUdp D
      → Option (NetSimUdp D × List (Publication D))
      → Type ℓ
  Requested src dest msg s r =
      (s' : NetSimUdp D) × (ps : List (Publication D)) × (r ≡ some (s', ps))
      × Forwarded src (dest ∷ []) msg s s'

  pub forward_packet-Requested :
      (cfg : NetSimUdpConfig D) (src dest : ℤ) (msg : ModemTransmission D) (s : NetSimUdp D)
      → contains src s.modems ≡ true
      → contains dest s.modems ≡ true
      → IsOrdered s
      → Requested src dest msg s (forward_packet cfg src dest msg s)
  unfolding forward_packet request_impulse request_performance port_text
  forward_packet-Requested cfg src dest msg s known known' ordered =
      go (port_text-known src s known) (port_text-known dest s known') cfg.packet_success_method
    where
      go :
          ((t : Text) × (port_text src s ≡ some t))
          → ((t : Text) × (port_text dest s ≡ some t))
          → (method : PacketSuccessMethod)
          → Requested src dest msg s
              (forward_packet (record cfg { packet_success_method = method }) src dest msg s)
      go (t, e) (t', e') PacketSuccessMethod.mpp = (
        stored src dest msg (counted s),
        performance_request (asked t t' s.perf_req_id)
            ∷ impulse_request (asked t t' s.imp_req_id)
            ∷ [],
        let again : port_text src (counted s) ≡ some t = e in
            let again' : port_text dest (counted s) ≡ some t' = e' in
            rw (forward_packet, request_performance, e)
              (rw (e') (rw (request_impulse, again) (rw again'))),
        let f = stored-Forwarded src dest msg (counted s) ordered in
            record {
              modems = f.modems;
              endpoints = f.endpoints;
              delayed = f.delayed;
              ordered = f.ordered;
              waits = f.waits;
            },
      )
      go (t, e) (t', e') PacketSuccessMethod.range_table = (
        stored src dest msg s,
        impulse_request (asked t t' s.imp_req_id) ∷ [],
        rw (forward_packet, request_impulse, e) (rw (e')),
        stored-Forwarded src dest msg s ordered,
      )
      go (t, e) (t', e') PacketSuccessMethod.all_packets_succeed = (
        stored src dest msg s,
        impulse_request (asked t t' s.imp_req_id) ∷ [],
        rw (forward_packet, request_impulse, e) (rw (e')),
        stored-Forwarded src dest msg s ordered,
      )
