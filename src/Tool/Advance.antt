-- ===== src/Tool/Advance.antt =====
-- src/apps/netsim_tool/main.cpp: the position after a transmission, in the middle of a row, at its end
-- and at the end of the grid, for positions that are not negative.
use netsim.Prelude.{
  ◌>>=◌, ℕ, ◌+◌, ◌^◌, ◌<◌, ◌≤◌, ◌≡◌, refl, ap, ◌∙◌, true, false, Bool-cases, inl, inr, ◌&&◌, List,
  [], ◌∷◌, ◌++◌, Option, none, some, ltb, if◌then◌else◌, if-true, if-false, arith,
}
use netsim.Prelude.Int.{ℤ, pos, ltb_ℤ}
use netsim.Tool.{
  ToolConfig, NetSimTool, Action, source_position, receiver_position, request_stats, rx_stats,
  transmit, quit, add_int, next_row, advance, publish_stats, counted, transmission_due,
}

-- A grid, with steps that are not 0 and no sum beyond the range of `int`.
pub record Grid : Type 0 where
  pub r_first : ℕ
  pub r_last : ℕ
  pub r_step : ℕ
  pub z_first : ℕ
  pub z_last : ℕ
  pub z_step : ℕ
  pub r_moves : 0 < r_step
  pub z_moves : 0 < z_step
  pub r_bound : r_last + r_step < 2 ^ 31
  pub z_bound : z_last + z_step < 2 ^ 31

unfoldable pub configured {ℓ} : {D : Type ℓ} → Grid → D → D → ToolConfig D
configured g slot frequency = record {
  r_min = pos g.r_first;
  r_max = pos g.r_last;
  dr = pos g.r_step;
  z_min = pos g.z_first;
  z_max = pos g.z_last;
  dz = pos g.z_step;
  slot_seconds = slot;
  loop_frequency_hertz = frequency;
}

add_int-pos : (a b : ℕ) → a + b < 2 ^ 31 → add_int (pos a) (pos b) ≡ some (pos (a + b))
unfolding add_int
add_int-pos a b l = ground arith

add_int-at : (r : ℤ) (a b : ℕ) → r ≡ pos a → a + b < 2 ^ 31 → add_int r (pos b) ≡ some (pos (a + b))
add_int-at r a b e l = ap (λ x. add_int x (pos b)) e ∙ add_int-pos a b l

module _ {ℓ} {D : Type ℓ} {S : Type 0} (g : Grid) (slot frequency : D) where
  pub advance-column :
      (a : ℕ) (s : NetSimTool S)
      → s.r ≡ pos a
      → a + g.r_step ≤ g.r_last
      → advance (configured g slot frequency) s ≡ some (record s { r = pos (a + g.r_step) })
  unfolding advance configured
  advance-column a s e l =
      let cfg = configured g slot frequency in
      ap
        (λ o. o >>= λ r'. if ltb_ℤ cfg.r_max r' then next_row cfg s else some (record s { r = r' }))
        (add_int-at s.r a g.r_step e (omega (arith, g.r_bound)))
      ∙ if-false (ltb_ℤ (pos g.r_last) (pos (a + g.r_step))) (next_row cfg s)
          (some (record s { r = pos (a + g.r_step) })) (ground arith)

  pub advance-row :
      (a b : ℕ) (s : NetSimTool S)
      → s.r ≡ pos a
      → s.z ≡ pos b
      → a ≤ g.r_last
      → g.r_last < a + g.r_step
      → b ≤ g.z_last
      → advance (configured g slot frequency) s
        ≡ some (record s {
          r = pos g.r_first;
          z = pos (b + g.z_step);
          run_complete = if ltb g.z_last (b + g.z_step) then true else s.run_complete;
        })
  unfolding advance configured next_row
  advance-row a b s e e' l l' l'' =
      let cfg = configured g slot frequency in
      ap
        (λ o. o >>= λ r'. if ltb_ℤ cfg.r_max r' then next_row cfg s else some (record s { r = r' }))
        (add_int-at s.r a g.r_step e (omega (arith, g.r_bound)))
      ∙ if-true (ltb_ℤ (pos g.r_last) (pos (a + g.r_step))) (next_row cfg s)
          (some (record s { r = pos (a + g.r_step) })) (ground arith)
      ∙ ap
          (λ o. o >>= λ z'. some (record s {
            r = cfg.r_min;
            z = z';
            run_complete = if ltb_ℤ cfg.z_max z' then true else s.run_complete;
          }))
          (add_int-at s.z b g.z_step e' (omega (arith, g.z_bound)))
      ∙ ap (λ c. some (record s { r = pos g.r_first; z = pos (b + g.z_step); run_complete = c }))
          (ap (λ t. if t then true else s.run_complete) (ground arith))

-- What is sent and transmitted, and the end; statistics are left out.
pub data Stop : Type 0 where
  moved_to : ℤ → ℤ → Stop
  transmitted : Stop
  ended : Stop

unfoldable pub route : {S : Type 0} → List (Action S) → List Stop
route [] = []
route (source_position id ∷ actions) = route actions
route (receiver_position id r z ∷ actions) = moved_to r z ∷ route actions
route (request_stats id stat ∷ actions) = route actions
route (rx_stats stats r z ∷ actions) = route actions
route (transmit ∷ actions) = transmitted ∷ route actions
route (quit ∷ actions) = ended ∷ route actions

pub route-append : {S : Type 0} (xs ys : List (Action S)) → route (xs ++ ys) ≡ route xs ++ route ys
unfolding route
route-append [] ys = refl
route-append (source_position id ∷ xs) ys = route-append xs ys
route-append (receiver_position id r z ∷ xs) ys = ap (◌∷◌ (moved_to r z)) (route-append xs ys)
route-append (request_stats id stat ∷ xs) ys = route-append xs ys
route-append (rx_stats stats r z ∷ xs) ys = route-append xs ys
route-append (transmit ∷ xs) ys = ap (◌∷◌ transmitted) (route-append xs ys)
route-append (quit ∷ xs) ys = ap (◌∷◌ ended) (route-append xs ys)

-- The publication of statistics changes the statistics alone.
publish_stats-route :
    {S : Type 0} (s : NetSimTool S)
    → (stats : Option S) × (out : List (Action S)) × (publish_stats s
        ≡ (record s { previous_stats = stats }, out))
      × (route out ≡ [])
unfolding publish_stats route
publish_stats-route s = elim (Bool-cases (ltb_ℤ (pos 0) s.last_r && ltb_ℤ (pos 0) s.last_z)) [
  | inl e ↦ (none, rx_stats s.previous_stats s.last_r s.last_z ∷ [], if-true _ _ _ e, refl)
  | inr e ↦ (s.previous_stats, [], if-false _ _ _ e, refl)
]

-- The rest of a transmission, behind the publication of the statistics.
abbrev after_stats {ℓ} :
    {D : Type ℓ} {S : Type 0}
    → ToolConfig D
    → NetSimTool S × List (Action S)
    → Option (NetSimTool S × List (Action S))
after_stats cfg p = if p.0.run_complete then some (p.0, p.1 ++ quit ∷ []) else do
  s2 ← advance cfg (record (p.0) { last_r = p.0.r; last_z = p.0.z })
  some (counted (record s2 { loops_since_last_transmission = 0 }), p.1 ++ transmit ∷ [])

-- A transmission with the next position, which `s'` has.
pub transmission_due-route {ℓ} :
    {D : Type ℓ} {S : Type 0} (cfg : ToolConfig D) (s s' : NetSimTool S)
    → s.run_complete ≡ false
    → ((r z : ℤ) (stats : Option S)
        → advance cfg (record s { last_r = r; last_z = z; previous_stats = stats })
          ≡ some (record s' { last_r = r; last_z = z; previous_stats = stats }))
    → (stats : Option S) × (out : List (Action S)) × (transmission_due cfg s
        ≡ some (
          record s' {
            last_r = s.r;
            last_z = s.z;
            previous_stats = stats;
            loops_since_last_transmission = 1;
          },
          out,
        ))
      × (route out ≡ transmitted ∷ [])
unfolding transmission_due route
transmission_due-route cfg s s' e next =
    let (stats, out, p, q) = publish_stats-route s in
    let s1 = record s { previous_stats = stats } in
    (
      stats,
      out ++ transmit ∷ [],
      ap (after_stats cfg) p
          ∙ if-false s.run_complete (some (s1, out ++ quit ∷ []))
              (advance cfg (record s1 { last_r = s.r; last_z = s.z }) >>= λ s2.
                some
                  (counted (record s2 { loops_since_last_transmission = 0 }), out ++ transmit ∷ []))
              e
          ∙ ap
              (λ o. o >>= λ s2.
                some
                  (counted (record s2 { loops_since_last_transmission = 0 }), out ++ transmit ∷ []))
              (next s.r s.z stats),
      route-append out (transmit ∷ []) ∙ ap (λ l. l ++ transmitted ∷ []) q,
    )

-- The end of the program, when the grid is complete.
pub transmission_due-ended {ℓ} :
    {D : Type ℓ} {S : Type 0} (cfg : ToolConfig D) (s : NetSimTool S)
    → s.run_complete ≡ true
    → (stats : Option S) × (out : List (Action S)) × (transmission_due cfg s
        ≡ some (record s { previous_stats = stats }, out))
      × (route out ≡ ended ∷ [])
unfolding transmission_due route
transmission_due-ended cfg s e =
    let (stats, out, p, q) = publish_stats-route s in
    let s1 = record s { previous_stats = stats } in
    (
      stats,
      out ++ quit ∷ [],
      ap (after_stats cfg) p
          ∙ if-true s.run_complete (some (s1, out ++ quit ∷ []))
              (advance cfg (record s1 { last_r = s.r; last_z = s.z }) >>= λ s2.
                some
                  (counted (record s2 { loops_since_last_transmission = 0 }), out ++ transmit ∷ []))
              e,
      route-append out (quit ∷ []) ∙ ap (λ l. l ++ ended ∷ []) q,
    )
