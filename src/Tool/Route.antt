-- ===== src/Tool/Route.antt =====
-- src/apps/netsim_tool/main.cpp: the whole run of the tool, from the first point of the grid to the end.
-- The client is connected.
use netsim.Prelude.{
  ◌>>=◌, ℕ, zero, suc, ◌+◌, ◌<◌, ◌≡◌, refl, ap, ◌∙◌, sym, true, false, List, [], ◌∷◌, ◌++◌,
  append_assoc, Option, none, some, ltb, if◌then◌else◌, arith,
}
use netsim.Prelude.Int.{ℤ, pos}
use netsim.Prelude.Floats.{Double}
use netsim.Tool.{ToolConfig, NetSimTool, Action, update_receiver_position, advance, loop, run}
use netsim.Tool.Timing.{preceded, preceded-none, bind-preceded, at, HasDeadlines, run-slot}
use netsim.Tool.Advance.{
  Grid, configured, Stop, moved_to, transmitted, route, route-append, transmission_due-route,
}

preceded_append :
    {S : Type 0} (xs ys : List (Action S)) (o : Option (NetSimTool S × List (Action S)))
    → preceded xs (preceded ys o) ≡ preceded (xs ++ ys) o
preceded_append xs ys none = refl
preceded_append xs ys (some (s, out)) = ap (λ l. some (s, l)) (sym (append_assoc xs ys out))

unfoldable pub IsAt : {S : Type 0} → ℕ → ℕ → NetSimTool S → Type 0
IsAt a b s =
    (s.r ≡ pos a)
    × (s.z ≡ pos b)
    × (ltb s.drivers_ready 2 ≡ false)
    × (s.run_complete ≡ false)
    × (s.loops_since_last_transmission ≡ 1)

unfoldable pub IsDone : {S : Type 0} → NetSimTool S → Type 0
IsDone s =
    (ltb s.drivers_ready 2 ≡ false)
    × (s.run_complete ≡ true)
    × (s.loops_since_last_transmission ≡ 1)

-- The numbers from `a` to `last`, by `step`, of which there are at most `n`.
unfoldable pub upto : ℕ → ℕ → ℕ → ℕ → List ℕ
upto zero a step last = []
upto (suc n) a step last = if ltb last a then [] else a ∷ upto n (a + step) step last

-- The columns and the rows of a grid.
unfoldable pub columns : Grid → List ℕ
columns g = upto (suc g.r_last) g.r_first g.r_step g.r_last

unfoldable pub rows : Grid → List ℕ
rows g = upto (suc g.z_last) g.z_first g.z_step g.z_last

-- What a run through the points of a row does.
unfoldable pub row_route : List ℕ → ℕ → List Stop
row_route [] b = []
row_route (a ∷ as') b = moved_to (pos a) (pos b) ∷ transmitted ∷ row_route as' b

unfoldable pub rows_route : List ℕ → List ℕ → List Stop
rows_route as' [] = []
rows_route as' (b ∷ bs) = row_route as' b ++ rows_route as' bs

module _ {ℓ} {D : Type ℓ} ⦃d : Double D⦄ {S : Type 0} (cfg : ToolConfig D) where
  -- `n` loops that return, with a route to a state of a kind.
  unfoldable pub Reaches : ℕ → NetSimTool S → List Stop → (NetSimTool S → Type 0) → Type 0
  Reaches n s w Q =
      (t : NetSimTool S) × (out : List (Action S)) × (run cfg true n s ≡ some (t, out))
      × (route out ≡ w)
      × Q t

  -- `n` more loops.
  abbrev continued :
      ℕ → Option (NetSimTool S × List (Action S)) → Option (NetSimTool S × List (Action S))
  continued n none = none
  continued n (some (t, out)) = preceded out (run cfg true n t)

  then-continued :
      (n : ℕ) (before : List (Action S)) (o : Option (NetSimTool S × List (Action S)))
      → (continued n o >>= λ p. some (p.0, before ++ p.1))
        ≡ continued n (o >>= λ p. some (p.0, before ++ p.1))
  then-continued n before none = refl
  then-continued n before (some (t, out)) =
      bind-preceded before (preceded out (run cfg true n t))
      ∙ preceded_append before out (run cfg true n t)

  run-continued :
      (m n : ℕ) (s : NetSimTool S) → run cfg true (m + n) s ≡ continued n (run cfg true m s)
  unfolding run
  run-continued zero n s =
      ap (λ m. run cfg true m s) {x = 0 + n} {y = n} (omega arith)
      ∙ sym (preceded-none (run cfg true n s))
  run-continued (suc m) n s =
      ap (λ m. run cfg true m s) {x = suc m + n} {y = suc (m + n)} (omega arith)
      ∙ by_loop (loop cfg true s) (λ t. run-continued m n t)
    where
      by_loop :
          (o : Option (NetSimTool S × List (Action S)))
          → ((t : NetSimTool S) → run cfg true (m + n) t ≡ continued n (run cfg true m t))
          → (o >>= λ x. run cfg true (m + n) (x.0) >>= λ p. some (p.0, x.1 ++ p.1))
            ≡ continued n (o >>= λ x. run cfg true m (x.0) >>= λ p. some (p.0, x.1 ++ p.1))
      by_loop none ih = refl
      by_loop (some (t, out)) ih =
          ap (λ o. o >>= λ p. some (p.0, out ++ p.1)) (ih t)
          ∙ then-continued n out (run cfg true m t)

  run-append :
      (m n : ℕ) (s t : NetSimTool S) (out : List (Action S))
      → run cfg true m s ≡ some (t, out)
      → run cfg true (m + n) s ≡ preceded out (run cfg true n t)
  run-append m n s t out e = run-continued m n s ∙ ap (continued n) e

  pub Reaches-append :
      (m n : ℕ) (s : NetSimTool S) (w v : List Stop) (Q R : NetSimTool S → Type 0)
      → Reaches m s w Q
      → ((t : NetSimTool S) → Q t → Reaches n t v R)
      → Reaches (m + n) s (w ++ v) R
  unfolding Reaches
  Reaches-append m n s w v Q R (t, out, e, p, q) rest =
      let (t', out', e', p', q') = rest t q in
      (
        t',
        out ++ out',
        run-append m n s t out e ∙ ap (preceded out) e',
        route-append out out' ∙ ap (λ l. l ++ route out') p ∙ ap (λ l. w ++ l) p',
        q',
      )

-- The state that it would have at the first loop of a slot, if it is there.
pub at_first : {S : Type 0} (s : NetSimTool S) → s.loops_since_last_transmission ≡ 1 → s ≡ at 1 s
at_first s e = ap (λ n. at n s) e

module _ {ℓ} {D : Type ℓ} ⦃d : Double D⦄ {S : Type 0} (g : Grid) (slot frequency : D)
    (h f : ℕ) where
  -- One slot, with the state behind it but for what a transmission always sets.
  pub slot-Reaches :
      (a b : ℕ) (s s' : NetSimTool S) (Q : NetSimTool S → Type 0)
      → HasDeadlines (configured g slot frequency) h f
      → 0 < h
      → h < f
      → IsAt a b s
      → ((r z : ℤ) (stats : Option S)
          → advance
              (configured g slot frequency)
              (record (at f (update_receiver_position true s).0) {
                last_r = r;
                last_z = z;
                previous_stats = stats;
              })
            ≡ some (record s' { last_r = r; last_z = z; previous_stats = stats }))
      → ((r z : ℤ) (stats : Option S)
          → Q (record s' {
            last_r = r;
            last_z = z;
            previous_stats = stats;
            loops_since_last_transmission = 1;
          }))
      → Reaches (configured g slot frequency) f s (moved_to (pos a) (pos b) ∷ transmitted ∷ []) Q
  unfolding IsAt Reaches update_receiver_position route
  slot-Reaches a b s s' Q dl h0 h1 (er, ez, drivers, left, first) next q =
      let cfg = configured g slot frequency in
      let s1 = at f (update_receiver_position true s).0 in
      let (stats, out, e, p) = transmission_due-route cfg s1 s' left next in
      (
        _,
        (update_receiver_position true s).1 ++ out,
        ap (run cfg true f) (at_first s first)
            ∙ run-slot cfg true h f s dl h0 h1 drivers left
            ∙ ap (preceded (update_receiver_position true s).1) e,
        route-append (update_receiver_position true s).1 out
            ∙ ap (λ l. moved_to s.r s.z ∷ l) p
            ∙ ap (λ r. moved_to r s.z ∷ transmitted ∷ []) er
            ∙ ap (λ z. moved_to (pos a) z ∷ transmitted ∷ []) ez,
        q s1.r s1.z stats,
      )
