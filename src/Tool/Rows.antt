-- ===== src/Tool/Rows.antt =====
-- src/apps/netsim_tool/main.cpp: the slots in which a row of the grid is gone through.
-- The client is connected.
use netsim.Prelude.{
  ℕ, zero, suc, ◌+◌, ◌*◌, ◌<◌, ◌≤◌, ◌≡◌, refl, sym, subst, Bool, true, false, inl, inr, ◌⊎◌, [],
  ◌∷◌, length, Option, ltb, if◌then◌else◌, if-true, if-false, arith,
}
use netsim.Prelude.Int.{ℤ, pos}
use netsim.Prelude.Floats.{Double}
use netsim.Tool.{NetSimTool, update_receiver_position}
use netsim.Tool.Timing.{at, HasDeadlines}
use netsim.Tool.Advance.{Grid, configured, advance-column, advance-row, moved_to, transmitted}
use netsim.Tool.Route.{IsAt, IsDone, upto, row_route, Reaches, Reaches-append, slot-Reaches}

pub less_or_leq : (a b : ℕ) → (a < b) ⊎ (b ≤ a)
less_or_leq a b = ground arith

pub upto-nothing : (n a step last : ℕ) → last < a → upto n a step last ≡ []
unfolding upto
upto-nothing zero a step last l = refl
upto-nothing (suc n) a step last l =
    if-true (ltb last a) [] (a ∷ upto n (a + step) step last) (ground arith)

pub upto-more :
    (n a step last : ℕ) → a ≤ last → upto (suc n) a step last ≡ a ∷ upto n (a + step) step last
unfolding upto
upto-more n a step last l =
    if-false (ltb last a) [] (a ∷ upto n (a + step) step last) (ground arith)

-- What holds behind the row at `b`.
unfoldable pub AfterRow : {S : Type 0} → Grid → ℕ → NetSimTool S → Type 0
AfterRow g b s = if ltb g.z_last (b + g.z_step) then IsDone s else IsAt g.r_first (b + g.z_step) s

module _ {ℓ} {D : Type ℓ} ⦃d : Double D⦄ {S : Type 0} (g : Grid) (slot frequency : D) (h f : ℕ)
    (deadlines : HasDeadlines (configured g slot frequency) h f) (h_pos : 0 < h)
    (h_less : h < f) where
  slot-column :
      (a b : ℕ) (s : NetSimTool S)
      → IsAt a b s
      → a + g.r_step ≤ g.r_last
      → Reaches
          (configured g slot frequency)
          f
          s
          (moved_to (pos a) (pos b) ∷ transmitted ∷ [])
          (IsAt (a + g.r_step) b)
  unfolding IsAt update_receiver_position
  slot-column a b s i l =
      let (er, ez, drivers, left, first) = i in
      slot-Reaches g slot frequency h f a b s
        (record (at f (update_receiver_position true s).0) { r = pos (a + g.r_step) })
        (IsAt (a + g.r_step) b) deadlines h_pos h_less i
        (λ r z stats.
          advance-column g slot frequency a
            (record (at f (update_receiver_position true s).0) {
              last_r = r;
              last_z = z;
              previous_stats = stats;
            })
            er l)
        (λ r z stats. (refl, ez, drivers, left, refl))

  slot-row :
      (a b : ℕ) (s : NetSimTool S) (Q : NetSimTool S → Type 0)
      → IsAt a b s
      → a ≤ g.r_last
      → g.r_last < a + g.r_step
      → b ≤ g.z_last
      → ((r z : ℤ) (stats : Option S)
          → Q (record (at f (update_receiver_position true s).0) {
            r = pos g.r_first;
            z = pos (b + g.z_step);
            run_complete = if ltb g.z_last (b + g.z_step) then true else s.run_complete;
            last_r = r;
            last_z = z;
            previous_stats = stats;
            loops_since_last_transmission = 1;
          }))
      → Reaches (configured g slot frequency) f s (moved_to (pos a) (pos b) ∷ transmitted ∷ []) Q
  unfolding IsAt update_receiver_position
  slot-row a b s Q i l l' l'' q =
      let (er, ez, drivers, left, first) = i in
      slot-Reaches g slot frequency h f a b s
        (record (at f (update_receiver_position true s).0) {
          r = pos g.r_first;
          z = pos (b + g.z_step);
          run_complete = if ltb g.z_last (b + g.z_step) then true else s.run_complete;
        })
        Q deadlines h_pos h_less i
        (λ r z stats.
          advance-row g slot frequency a b
            (record (at f (update_receiver_position true s).0) {
              last_r = r;
              last_z = z;
              previous_stats = stats;
            })
            er ez l l' l'')
        q

  slot-AfterRow :
      (a b : ℕ) (s : NetSimTool S)
      → IsAt a b s
      → a ≤ g.r_last
      → g.r_last < a + g.r_step
      → b ≤ g.z_last
      → Reaches
          (configured g slot frequency)
          f
          s
          (moved_to (pos a) (pos b) ∷ transmitted ∷ [])
          (AfterRow g b)
  unfolding AfterRow IsAt IsDone update_receiver_position
  slot-AfterRow a b s i l l' l'' =
      slot-row a b s (AfterRow g b) i l l' l''
        (λ r z stats. by_test (ltb g.z_last (b + g.z_step)) r z stats i)
    where
      by_test :
          (c : Bool) (r z : ℤ) (stats : Option S)
          → IsAt a b s
          → (λ (t : NetSimTool S). if c then IsDone t else IsAt g.r_first (b + g.z_step) t)
              (record (at f (update_receiver_position true s).0) {
                r = pos g.r_first;
                z = pos (b + g.z_step);
                run_complete = if c then true else s.run_complete;
                last_r = r;
                last_z = z;
                previous_stats = stats;
                loops_since_last_transmission = 1;
              })
      by_test true r z stats (er, ez, drivers, left, first) = (drivers, refl, refl)
      by_test false r z stats (er, ez, drivers, left, first) = (refl, refl, drivers, left, refl)

  pub row-Reaches :
      (n a b : ℕ) (s : NetSimTool S)
      → IsAt a b s
      → a ≤ g.r_last
      → g.r_last < a + n
      → b ≤ g.z_last
      → Reaches
          (configured g slot frequency)
          (length (upto n a g.r_step g.r_last) * f)
          s
          (row_route (upto n a g.r_step g.r_last) b)
          (AfterRow g b)
  unfolding row_route upto
  row-Reaches zero a b s i l l' l'' = absurd (omega (arith, l, l'))
  row-Reaches (suc n) a b s i l l' l'' =
      subst
        (λ as'.
          Reaches (configured g slot frequency) (length as' * f) s (row_route as' b) (AfterRow g b))
        (sym (upto-more n a g.r_step g.r_last l))
        (elim (less_or_leq g.r_last (a + g.r_step)) [
          | inl e ↦
              subst
                (λ as'.
                  Reaches (configured g slot frequency) (suc (length as') * f) s
                    (moved_to (pos a) (pos b) ∷ transmitted ∷ row_route as' b) (AfterRow g b))
                (sym (upto-nothing n (a + g.r_step) g.r_step g.r_last e))
                (subst
                  (λ m.
                    Reaches (configured g slot frequency) m s
                      (moved_to (pos a) (pos b) ∷ transmitted ∷ []) (AfterRow g b))
                  {x = f} {y = 1 * f} (omega arith) (slot-AfterRow a b s i l e l''))
          | inr e ↦
              let as' = upto n (a + g.r_step) g.r_step g.r_last in
              subst
                (λ m.
                  Reaches (configured g slot frequency) m s
                    (moved_to (pos a) (pos b) ∷ transmitted ∷ row_route as' b) (AfterRow g b))
                {x = f + length as' * f} {y = suc (length as') * f} (omega arith)
                (Reaches-append (configured g slot frequency) f (length as' * f) s
                  (moved_to (pos a) (pos b) ∷ transmitted ∷ []) (row_route as' b)
                  (IsAt (a + g.r_step) b) (AfterRow g b) (slot-column a b s i e)
                  (λ t j. row-Reaches n (a + g.r_step) b t j e (omega (arith, l', g.r_moves)) l''))
        ])
