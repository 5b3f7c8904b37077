-- ===== src/Tool/Termination.antt =====
-- src/apps/netsim_tool/main.cpp: the tool goes through the points of the grid row by row, and ends.
-- The client is connected.
use netsim.Prelude.{
  ℕ, zero, suc, ◌+◌, ◌*◌, ◌<◌, ◌≤◌, ◌≡◌, refl, ap, ◌∙◌, sym, subst, true, inl, inr, List, [], ◌∷◌,
  ◌++◌, length, Option, some, ltb, if-true, if-false, arith,
}
use netsim.Prelude.Floats.{Double}
use netsim.Tool.{NetSimTool, Action, init, construct, update_receiver_position, ready, run}
use netsim.Tool.Timing.{at, HasDeadlines, run-done, run-first}
use netsim.Tool.Advance.{Grid, configured, ended, route, transmission_due-ended}
use netsim.Tool.Route.{
  IsAt, IsDone, upto, columns, rows, row_route, rows_route, Reaches, Reaches-append, at_first,
}
use netsim.Tool.Rows.{less_or_leq, upto-nothing, upto-more, AfterRow, row-Reaches}

module _ {ℓ} {D : Type ℓ} ⦃d : Double D⦄ {S : Type 0} (g : Grid) (slot frequency : D) (h f : ℕ)
    (deadlines : HasDeadlines (configured g slot frequency) h f) (h_pos : 0 < h)
    (h_less : h < f) where
  stays :
      (m : ℕ) (t : NetSimTool S)
      → IsDone t
      → Reaches (configured g slot frequency) (0 * m) t [] IsDone
  unfolding Reaches run route
  stays m t done =
      subst (λ n. Reaches (configured g slot frequency) n t [] IsDone) {x = 0} {y = 0 * m}
        (omega arith) (t, [], refl, refl, done)

  AfterRow-last : (b : ℕ) (t : NetSimTool S) → g.z_last < b + g.z_step → AfterRow g b t → IsDone t
  unfolding AfterRow
  AfterRow-last b t l a =
      subst (λ T. T)
        (if-true (ltb g.z_last (b + g.z_step)) (IsDone t) (IsAt g.r_first (b + g.z_step) t)
          (ground arith))
        a

  AfterRow-next :
      (b : ℕ) (t : NetSimTool S)
      → b + g.z_step ≤ g.z_last
      → AfterRow g b t
      → IsAt g.r_first (b + g.z_step) t
  unfolding AfterRow
  AfterRow-next b t l a =
      subst (λ T. T)
        (if-false (ltb g.z_last (b + g.z_step)) (IsDone t) (IsAt g.r_first (b + g.z_step) t)
          (ground arith))
        a

  rows-Reaches :
      (n b : ℕ) (s : NetSimTool S)
      → g.r_first ≤ g.r_last
      → IsAt g.r_first b s
      → b ≤ g.z_last
      → g.z_last < b + n
      → Reaches
          (configured g slot frequency)
          (length (upto n b g.z_step g.z_last) * (length (columns g) * f))
          s
          (rows_route (columns g) (upto n b g.z_step g.z_last))
          IsDone
  unfolding rows_route upto columns
  rows-Reaches zero b s r i l l' = absurd (omega (arith, l, l'))
  rows-Reaches (suc n) b s r i l l' =
      let cfg = configured g slot frequency in
      let row =
        row-Reaches g slot frequency h f deadlines h_pos h_less (suc g.r_last) g.r_first b s i r
          (omega arith) l in
      let bs = upto n (b + g.z_step) g.z_step g.z_last in
      let m = length (columns g) * f in
      subst (λ bs. Reaches cfg (length bs * m) s (rows_route (columns g) bs) IsDone)
        (sym (upto-more n b g.z_step g.z_last l))
        (subst (λ k. Reaches cfg k s (row_route (columns g) b ++ rows_route (columns g) bs) IsDone)
          {x = m + length bs * m} {y = suc (length bs) * m} (omega arith)
          (Reaches-append cfg m (length bs * m) s (row_route (columns g) b)
            (rows_route (columns g) bs) (AfterRow g b) IsDone row
            (λ t a. elim (less_or_leq g.z_last (b + g.z_step)) [
              | inl e ↦
                  subst (λ bs. Reaches cfg (length bs * m) t (rows_route (columns g) bs) IsDone)
                    (sym (upto-nothing n (b + g.z_step) g.z_step g.z_last e))
                    (stays m t (AfterRow-last b t e a))
              | inr e ↦
                  rows-Reaches n (b + g.z_step) t r (AfterRow-next b t e a) e
                    (omega (arith, l', g.z_moves))
            ])))

  done-Reaches :
      (t : NetSimTool S)
      → IsDone t
      → Reaches (configured g slot frequency) f t (ended ∷ []) (λ s. s.run_complete ≡ true)
  unfolding Reaches IsDone
  done-Reaches t (drivers, done, first) =
      let cfg = configured g slot frequency in
      let (stats, out, e, p) = transmission_due-ended cfg (at f t) done in
      (
        _,
        out,
        ap (run cfg true f) (at_first t first)
            ∙ run-done cfg true h f t deadlines h_less drivers done
            ∙ e,
        p,
        done,
      )

  -- From the state that its constructor leaves, with both drivers ready and a client that is
  -- connected, whatever requests and statistics there were, and with no other callback between the
  -- loops, the tool ends: after one loop and the slots of all points, each of `f` loops, and one
  -- slot more. Row by row, from the first column to the last, it has then told the manager of each
  -- point of the grid, once, and transmitted from it, and after the last point it has ended. Half
  -- a slot and two slots are `h` and `f` loops with 0 < `h` < `f`, the grid is not empty, its
  -- steps are not 0, and no position is negative or beyond the range of `int`.
  pub run-ends :
      (id : ℕ) (stats : Option S)
      → g.r_first ≤ g.r_last
      → g.z_first ≤ g.z_last
      → let cfg = configured g slot frequency in
        let started = record (ready (ready (construct cfg true).0)) {
          request_id = id;
          previous_stats = stats;
        } in
        (s : NetSimTool S) × (out : List (Action S)) × (run cfg true
            (1 + length (rows g) * (length (columns g) * f) + f)
            started
          ≡ some (s, out))
        × (route out ≡ rows_route (columns g) (rows g) ++ ended ∷ [])
  unfolding Reaches ready construct init update_receiver_position IsAt rows configured
  run-ends id stats r z =
      let cfg = configured g slot frequency in
      let started = record (ready (ready (construct cfg true).0)) {
        request_id = id;
        previous_stats = stats;
      } in
      let n = length (rows g) * (length (columns g) * f) in
      let (s, out, e, p, q) =
        Reaches-append cfg n f (at 1 started) (rows_route (columns g) (rows g)) (ended ∷ []) IsDone
          (λ s. s.run_complete ≡ true)
          (rows-Reaches (suc g.z_last) g.z_first (at 1 started) r (refl, refl, refl, refl, refl) z
            (omega arith))
          done-Reaches in
      (
        s,
        out,
        ap (λ m. run cfg true m started) {x = 1 + n + f} {y = 1 + (n + f)} (omega arith)
            ∙ run-first cfg true h f (n + f) started deadlines h_pos h_less refl
            ∙ e,
        p,
      )
