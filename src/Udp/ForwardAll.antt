-- ===== src/Udp/ForwardAll.antt =====
-- src/apps/netsim_udp/main.cpp: a packet for several modems.
use netsim.Prelude.{
  ◌+◌, ◌≡◌, refl, ap, sym, ◌∙◌, subst, true, Bool-cases, inl, inr, List, [], ◌∷◌, ◌++◌, some, All,
  append-nil, append_assoc, replicate-add, arith,
}
use netsim.Prelude.Int.{ℤ, eqb_ℤ}
use netsim.Prelude.Maps.{contains, int_key}
use netsim.Prelude.Text.{text_key}
use netsim.Udp.{ModemTransmission, NetSimUdpConfig, Publication, NetSimUdp}
use netsim.Udp.Routing.{forward_packet, forward_all}
use netsim.Udp.Forwarding.{count, waiting, IsOrdered, copies, Forwarded, forward_packet-Requested}

count_append : (d i : ℤ) (is : List ℤ) → count d (i ∷ is) ≡ count d (i ∷ []) + count d is
unfolding count
count_append d i is = elim (Bool-cases (eqb_ℤ i d)) [
  | inl same ↦ rw same (omega arith)
  | inr other ↦ rw other (omega arith)
]

module _ {ℓ} {D : Type ℓ} where
  copies_append :
      (src dest : ℤ) (dests : List ℤ) (msg : ModemTransmission D) (i d : ℤ)
      → copies src (dest ∷ []) msg i d ++ copies src dests msg i d
        ≡ copies src (dest ∷ dests) msg i d
  copies_append src dest dests msg i d = elim (Bool-cases (eqb_ℤ src i)) [
    | inl same ↦
        rw (same, count_append d dest dests)
          (sym (replicate-add (count d (dest ∷ [])) (count d dests) msg))
    | inr other ↦ rw other
  ]

  Forwarded-trans :
      (src dest : ℤ) (dests : List ℤ) (msg : ModemTransmission D) (s s1 s2 : NetSimUdp D)
      → Forwarded src (dest ∷ []) msg s s1
      → Forwarded src dests msg s1 s2
      → Forwarded src (dest ∷ dests) msg s s2
  Forwarded-trans src dest dests msg s s1 s2 f g = record {
    modems = g.modems ∙ f.modems;
    endpoints = g.endpoints ∙ f.endpoints;
    delayed = g.delayed ∙ f.delayed;
    ordered = g.ordered;
    waits = λ i d.
        g.waits i d
        ∙ ap (λ l. l ++ copies src dests msg i d) (f.waits i d)
        ∙ append_assoc (waiting i d s) (copies src (dest ∷ []) msg i d) (copies src dests msg i d)
        ∙ ap (λ l. waiting i d s ++ l) (copies_append src dest dests msg i d);
  }

  -- Modems that are configured.
  abbrev pub AreKnown : List ℤ → NetSimUdp D → Type 0
  AreKnown is s = All (λ i. contains i s.modems ≡ true) is

  forward_all-step :
      (cfg : NetSimUdpConfig D) (src dest : ℤ) (dests : List ℤ) (msg : ModemTransmission D)
      (s s1 s2 : NetSimUdp D) (ps qs : List (Publication D))
      → forward_packet cfg src dest msg s ≡ some (s1, ps)
      → forward_all cfg src dests msg s1 ≡ some (s2, qs)
      → forward_all cfg src (dest ∷ dests) msg s ≡ some (s2, ps ++ qs)
  unfolding forward_all
  forward_all-step cfg src dest dests msg s s1 s2 ps qs one more = rw (forward_all, one) (rw more)

  pub Forwarded-none :
      (src : ℤ) (msg : ModemTransmission D) (s : NetSimUdp D)
      → IsOrdered s
      → Forwarded src [] msg s s
  unfolding count
  Forwarded-none src msg s ordered = record {
    modems = refl;
    endpoints = refl;
    delayed = refl;
    ordered = ordered;
    waits = λ i d.
        sym (append-nil (waiting i d s))
        ∙ ap (λ l. waiting i d s ++ l)
            (elim (Bool-cases (eqb_ℤ src i)) [ inl same ↦ rw same | inr other ↦ rw other ]);
  }

  pub forward_all-Forwarded :
      (cfg : NetSimUdpConfig D) (src : ℤ) (dests : List ℤ) (msg : ModemTransmission D)
      (s : NetSimUdp D)
      → contains src s.modems ≡ true
      → AreKnown dests s
      → IsOrdered s
      → (s' : NetSimUdp D) × (ps : List (Publication D)) × (forward_all cfg src dests msg s
          ≡ some (s', ps))
        × Forwarded src dests msg s s'
  unfolding forward_all
  forward_all-Forwarded cfg src [] msg s known all_known ordered =
      (s, [], refl, Forwarded-none src msg s ordered)
  forward_all-Forwarded cfg src (dest ∷ dests) msg s known all_known ordered =
      let (s1, ps, one, f) =
        forward_packet-Requested cfg src dest msg s known all_known.0 ordered in
      let (s2, qs, more, g) =
        forward_all-Forwarded cfg src dests msg s1
          (subst (λ m. contains src m ≡ true) (sym f.modems) known)
          (subst (λ m. All (λ i. contains i m ≡ true) dests) (sym f.modems) all_known.1)
          f.ordered in
      (
        s2,
        ps ++ qs,
        forward_all-step cfg src dest dests msg s s1 s2 ps qs one more,
        Forwarded-trans src dest dests msg s s1 s2 f g,
      )
