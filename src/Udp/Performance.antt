-- ===== src/Udp/Performance.antt =====
-- src/apps/netsim_udp/main.cpp: the table of the performance of each pair of modems. `none` is an
-- exception of `std::map::at`.
use netsim.Prelude.{
  ◌≡◌, refl, ◌∙◌, Bool, true, false, Bool-cases, inl, inr, ◌&&◌, ◌||◌, List, [], ◌∷◌, ◌++◌, Option,
  none, some, if◌then◌else◌, arith,
}
use netsim.Prelude.Int.{ℤ, eqb_ℤ, eqb_ℤ_iff}
use netsim.Prelude.Floats.{Double, of_nat}
use netsim.Prelude.Maps.{Map, Key, lookup, int_key}
use netsim.Prelude.Text.{Text, text_key}
use netsim.Udp.{ModemEndPoint, ModemPairPerformance, NetSimUdp}

-- A receiver of an `ObjFuncResponse`.
pub record Receiver {ℓ} (D : Type ℓ) : Type ℓ where
  pub node : Text
  pub mpp : D

-- The same two modems, in either order.
unfoldable pub same_pair : ℤ → ℤ → ℤ → ℤ → Bool
same_pair src dest i j = (eqb_ℤ src i && eqb_ℤ dest j) || (eqb_ℤ src j && eqb_ℤ dest i)

-- Two pairs that match a third one, in either order, are the same.
other_pair :
    {K : Type 0} ⦃e : Key K⦄ (a b i j x y : K)
    → ((e.eqb a i && e.eqb b j) || (e.eqb a j && e.eqb b i)) ≡ false
    → ((e.eqb a x && e.eqb b y) || (e.eqb b x && e.eqb a y)) ≡ true
    → ((e.eqb i x && e.eqb j y) || (e.eqb j x && e.eqb i y)) ≡ false
other_pair ⦃e⦄ a b i j x y h m = ground (
  arith,
  e.eqb_iff a i,
  e.eqb_iff b j,
  e.eqb_iff a j,
  e.eqb_iff b i,
  e.eqb_iff a x,
  e.eqb_iff b y,
  e.eqb_iff b x,
  e.eqb_iff a y,
  e.eqb_iff i x,
  e.eqb_iff j y,
  e.eqb_iff j x,
  e.eqb_iff i y,
  h,
  m,
)

module _ {ℓ} {D : Type ℓ} where
  -- The pairs of a modem with those before it in the configuration.
  unfoldable pub pairs_with : D → ModemEndPoint → List ModemEndPoint → List (ModemPairPerformance D)
  pairs_with mpp m [] = []
  pairs_with mpp m (before ∷ ms) =
      record { src_id = m.modem_id; dest_id = before.modem_id; mpp = mpp } ∷ pairs_with mpp m ms

  -- The two loops of the constructor; `before` are the modems that the outer one has passed.
  unfoldable pub all_pairs :
      D → List ModemEndPoint → List ModemEndPoint → List (ModemPairPerformance D)
  all_pairs mpp before [] = []
  all_pairs mpp before (m ∷ ms) = pairs_with mpp m before ++ all_pairs mpp (before ++ m ∷ []) ms

  -- The entry is that of the two modems, in either order.
  unfoldable pub matches : ℤ → ℤ → ModemPairPerformance D → Bool
  matches src dest p =
      (eqb_ℤ src p.src_id && eqb_ℤ dest p.dest_id) || (eqb_ℤ dest p.src_id && eqb_ℤ src p.dest_id)

  unfoldable pub set_mpp : ℤ → ℤ → D → List (ModemPairPerformance D) → List (ModemPairPerformance D)
  set_mpp src dest mpp [] = []
  set_mpp src dest mpp (p ∷ ps) =
      let rest = set_mpp src dest mpp ps in
      if matches src dest p then record p { mpp = mpp } ∷ rest else p ∷ rest

  unfoldable pub set_receivers :
      Map Text ℤ
      → ℤ
      → List (Receiver D)
      → List (ModemPairPerformance D)
      → Option (List (ModemPairPerformance D))
  set_receivers ports src [] ps = some ps
  set_receivers ports src (r ∷ rs) ps = elim (lookup r.node ports) [
    | none ↦ none
    | some dest ↦ set_receivers ports src rs (set_mpp src dest r.mpp ps)
  ]

  unfoldable pub process_performance_response :
      Text → List (Receiver D) → NetSimUdp D → Option (NetSimUdp D)
  process_performance_response contact receivers s = elim (lookup contact s.tcp_port_to_id) [
    | none ↦ some s
    | some src ↦ elim (set_receivers s.tcp_port_to_id src receivers s.perf_table) [
      | none ↦ none
      | some ps ↦ some (record s { perf_table = ps })
    ]
  ]

module _ {ℓ} {D : Type ℓ} ⦃d : Double D⦄ where
  -- `std::min(1.0, a)` and `std::max(0.0, a)`
  unfoldable pub min_one : D → D
  min_one a = if d.lt a (of_nat 1) then a else of_nat 1

  unfoldable pub max_zero : D → D
  max_zero a = if d.lt (of_nat 0) a then a else of_nat 0

  unfoldable pub mpp_probab : D → D
  mpp_probab mpp = max_zero (
      min_one (
        d.div (d.add (d.div (d.mul (d.sub mpp (of_nat 30)) (of_nat 80)) (of_nat 50)) (of_nat 20))
          (of_nat 100)))

  unfoldable pub mpp_transmit_probability : ℤ → ℤ → List (ModemPairPerformance D) → D
  mpp_transmit_probability src dest [] = of_nat 0
  mpp_transmit_probability src dest (p ∷ ps) =
      let rest = mpp_transmit_probability src dest ps in
      if matches src dest p then mpp_probab p.mpp else rest

  matches_comm :
      (src dest : ℤ) (p : ModemPairPerformance D) → matches src dest p ≡ matches dest src p
  unfolding matches
  matches_comm src dest p = ground arith

  pub probability_comm :
      (src dest : ℤ) (ps : List (ModemPairPerformance D))
      → mpp_transmit_probability src dest ps ≡ mpp_transmit_probability dest src ps
  unfolding mpp_transmit_probability
  probability_comm src dest [] = refl
  probability_comm src dest (p ∷ ps) = rw (matches_comm src dest p, probability_comm src dest ps)

  -- Whether the table has the pair.
  unfoldable pub has_pair : ℤ → ℤ → List (ModemPairPerformance D) → Bool
  has_pair src dest [] = false
  has_pair src dest (p ∷ ps) = matches src dest p || has_pair src dest ps

  matches-mpp :
      (i j : ℤ) (mpp : D) (p : ModemPairPerformance D)
      → matches i j (record p { mpp = mpp }) ≡ matches i j p
  unfolding matches
  matches-mpp i j mpp p = refl

  matches-same :
      (src dest i j : ℤ) (p : ModemPairPerformance D)
      → same_pair src dest i j ≡ true
      → matches src dest p ≡ matches i j p
  unfolding same_pair matches
  matches-same src dest i j p h =
      ground (arith, eqb_ℤ_iff src i, eqb_ℤ_iff src j, eqb_ℤ_iff dest i, eqb_ℤ_iff dest j, h)

  matches-other :
      (src dest i j : ℤ) (p : ModemPairPerformance D)
      → same_pair src dest i j ≡ false
      → matches src dest p ≡ true
      → matches i j p ≡ false
  unfolding same_pair matches
  matches-other src dest i j p h m = other_pair src dest i j p.src_id p.dest_id h m

  -- After a value is set for a pair that the table has, the probability from either modem to the
  -- other is that of the value, and of every pair that has another modem it is what it was.
  pub probability-set_mpp :
      (src dest i j : ℤ) (mpp : D) (ps : List (ModemPairPerformance D))
      → mpp_transmit_probability i j (set_mpp src dest mpp ps) ≡ (
          if same_pair src dest i j && has_pair i j ps
          then mpp_probab mpp
          else mpp_transmit_probability i j ps)
  unfolding mpp_transmit_probability set_mpp has_pair
  probability-set_mpp src dest i j mpp [] = elim (Bool-cases (same_pair src dest i j)) [
    | inl e ↦ rw e
    | inr e ↦ rw e
  ]
  probability-set_mpp src dest i j mpp (p ∷ ps) =
      let ih = probability-set_mpp src dest i j mpp ps in
      elim (Bool-cases (same_pair src dest i j)) [
        | inl same ↦ elim (Bool-cases (matches i j p)) [
          | inl hit ↦
              rw (matches-same src dest i j p same ∙ hit) (rw (matches-mpp i j mpp p, hit, same))
          | inr miss ↦ rw (matches-same src dest i j p same ∙ miss) (rw (miss, ih, same))
        ]
        | inr other ↦ elim (Bool-cases (matches src dest p)) [
          | inl hit ↦
              let miss = matches-other src dest i j p other hit in
              rw hit (rw (matches-mpp i j mpp p, miss, other) (ih ∙ rw other))
          | inr miss ↦ rw miss (rw (ih, other))
        ]
      ]
