-- ===== src/Tool/Timing.antt =====
-- src/apps/netsim_tool/main.cpp: the loops between two transmissions.
use netsim.Prelude.{
  ◌>>=◌, ℕ, zero, suc, ◌+◌, ◌-◌, ◌<◌, ◌≤◌, ◌≡◌, refl, ap, ◌∙◌, Bool, true, false, List, [], ◌++◌,
  Option, none, some, ltb, if-true, if-false, Bool-cases, inl, inr, append-nil, arith, ◌==◌,
}
use netsim.Prelude.Floats.{Double}
use netsim.Tool.{
  ToolConfig, NetSimTool, Action, update_receiver_position, transmission_due, counted, half_slot,
  two_slots, loop, run,
}

-- `out` goes before the actions of a result.
abbrev pub preceded :
    {S : Type 0}
    → List (Action S)
    → Option (NetSimTool S × List (Action S))
    → Option (NetSimTool S × List (Action S))
preceded out none = none
preceded out (some (s, rest)) = some (s, out ++ rest)

abbrev pub at : {S : Type 0} → ℕ → NetSimTool S → NetSimTool S
at n s = record s { loops_since_last_transmission = n }

pub preceded-none : {S : Type 0} (o : Option (NetSimTool S × List (Action S))) → preceded [] o ≡ o
preceded-none none = refl
preceded-none (some o) = refl

pub bind-preceded :
    {S : Type 0} (out : List (Action S)) (o : Option (NetSimTool S × List (Action S)))
    → (o >>= λ p. some (p.0, out ++ p.1)) ≡ preceded out o
bind-preceded out none = refl
bind-preceded out (some o) = refl

append_nothing :
    {S : Type 0} (o : Option (NetSimTool S × List (Action S)))
    → (o >>= λ p. some (p.0, p.1 ++ [])) ≡ o
append_nothing none = refl
append_nothing (some (s, out)) = ap (λ l. some (s, l)) (append-nil out)

-- Up to the loop `f`, the deadline of half a slot is met in the loop `h` alone, and that of two slots
-- in the loop `f`.
unfoldable pub HasDeadlines {ℓ} : {D : Type ℓ} ⦃d : Double D⦄ → ToolConfig D → ℕ → ℕ → Type 0
HasDeadlines cfg h f = (n : ℕ) → n ≤ f → (half_slot cfg n ≡ (n == h)) × (two_slots cfg n ≡ (n == f))

-- In another loop before `f` no deadline is met.
between {ℓ} :
    {D : Type ℓ} ⦃d : Double D⦄ (cfg : ToolConfig D) (h f i : ℕ)
    → HasDeadlines cfg h f
    → i < f
    → (i == h) ≡ false
    → (half_slot cfg i ≡ false) × (two_slots cfg i ≡ false)
unfolding HasDeadlines
between cfg h f i d0 l e = let (half, two) = d0 i (omega arith) in (half ∙ e, two ∙ ground arith)

module _ {ℓ} {D : Type ℓ} ⦃d : Double D⦄ {S : Type 0} (cfg : ToolConfig D) (connected : Bool) where
  loop-quiet :
      (c : ℕ) (s : NetSimTool S)
      → ltb s.drivers_ready 2 ≡ false
      → half_slot cfg c ≡ false
      → two_slots cfg c ≡ false
      → loop cfg connected (at c s) ≡ some (at (c + 1) s, [])
  unfolding loop
  loop-quiet c s e1 e2 e3 = rw (e1, e2, e3) refl

  loop-half :
      (c : ℕ) (s : NetSimTool S)
      → ltb s.drivers_ready 2 ≡ false
      → half_slot cfg c ≡ true
      → s.run_complete ≡ false
      → loop cfg connected (at c s)
        ≡ some (
          at (c + 1) (update_receiver_position connected s).0,
          (update_receiver_position connected s).1,
        )
  unfolding loop update_receiver_position
  loop-half c s e1 e2 e3 =
      rw (e1, e2)
        (ap (λ p. some (counted p.0, p.1))
          (if-false s.run_complete (at c s, []) (update_receiver_position connected (at c s)) e3))

  -- When the grid is complete, the loops before a transmission only count.
  loop-done :
      (c : ℕ) (s : NetSimTool S)
      → ltb s.drivers_ready 2 ≡ false
      → s.run_complete ≡ true
      → two_slots cfg c ≡ false
      → loop cfg connected (at c s) ≡ some (at (c + 1) s, [])
  unfolding loop
  loop-done c s e1 e2 e3 = elim (Bool-cases (half_slot cfg c)) [
    | inl e ↦
        rw (e1, e)
          (ap (λ p. some (counted p.0, p.1))
            (if-true s.run_complete (at c s, []) (update_receiver_position connected (at c s)) e2))
    | inr e ↦ rw (e1, e, e3) refl
  ]

  loop-due :
      (c : ℕ) (s : NetSimTool S)
      → ltb s.drivers_ready 2 ≡ false
      → half_slot cfg c ≡ false
      → two_slots cfg c ≡ true
      → loop cfg connected (at c s) ≡ transmission_due cfg (at c s)
  unfolding loop
  loop-due c s e1 e2 e3 = rw (e1, e2, e3) refl

  run-suc :
      (n : ℕ) (s s1 : NetSimTool S) (out : List (Action S))
      → loop cfg connected s ≡ some (s1, out)
      → run cfg connected (suc n) s ≡ preceded out (run cfg connected n s1)
  unfolding run
  run-suc n s s1 out e =
      ap (λ o. o >>= λ x. run cfg connected n x.0 >>= λ x'. some (x'.0, x.1 ++ x'.1)) e
      ∙ bind-preceded out (run cfg connected n s1)

  run-one : (s : NetSimTool S) → run cfg connected 1 s ≡ loop cfg connected s
  unfolding run
  run-one s = append_nothing (loop cfg connected s)

  -- Loops that only count.
  pub run-counted :
      (k n c : ℕ) (s : NetSimTool S)
      → ((i : ℕ) → c ≤ i → i < c + k → loop cfg connected (at i s) ≡ some (at (i + 1) s, []))
      → run cfg connected (k + n) (at c s) ≡ run cfg connected n (at (c + k) s)
  run-counted zero n c s q =
      ap (λ m. run cfg connected m (at c s)) {x = 0 + n} {y = n} (omega arith)
      ∙ ap (λ m. run cfg connected n (at m s)) {x = c} {y = c + 0} (omega arith)
  run-counted (suc k) n c s q =
      ap (λ m. run cfg connected m (at c s)) {x = suc k + n} {y = suc (k + n)} (omega arith)
      ∙ run-suc (k + n) (at c s) (at (c + 1) s) [] (q c (omega arith) (omega arith))
      ∙ preceded-none (run cfg connected (k + n) (at (c + 1) s))
      ∙ run-counted k n (c + 1) s (λ i h h'. q i (omega arith) (omega arith))
      ∙ ap (λ m. run cfg connected n (at m s)) {x = c + 1 + k} {y = c + suc k} (omega arith)

  run-quiet :
      (k n c : ℕ) (s : NetSimTool S)
      → ltb s.drivers_ready 2 ≡ false
      → ((i : ℕ) → c ≤ i → i < c + k → (half_slot cfg i ≡ false) × (two_slots cfg i ≡ false))
      → run cfg connected (k + n) (at c s) ≡ run cfg connected n (at (c + k) s)
  run-quiet k n c s e q = run-counted k n c s (λ i h h'. loop-quiet i s e (q i h h').0 (q i h h').1)

  -- From the loop after a transmission, if both drivers are ready and the grid is not complete, and
  -- half a slot and two slots are `h` and `f` loops with 0 < `h` < `f`: in `f` loops the position of the
  -- receiver is sent once, before the next transmission is due, in the last of them.
  pub run-slot :
      (h f : ℕ) (s : NetSimTool S)
      → HasDeadlines cfg h f
      → 0 < h
      → h < f
      → ltb s.drivers_ready 2 ≡ false
      → s.run_complete ≡ false
      → run cfg connected f (at 1 s)
        ≡ preceded
            (update_receiver_position connected s).1
            (transmission_due cfg (at f (update_receiver_position connected s).0))
  unfolding update_receiver_position HasDeadlines
  run-slot h f s d0 h0 h1 e e' =
      let s1 = (update_receiver_position connected s).0 in
      let out = (update_receiver_position connected s).1 in
      let (half, _) = d0 h (omega arith) in
      let (late, two) = d0 f (omega arith) in
      ap (λ m. run cfg connected m (at 1 s)) {x = f} {y = (h - 1) + suc (f - h)} (omega arith)
      ∙ run-quiet (h - 1) (suc (f - h)) 1 s e
          (λ i l l'. between cfg h f i d0 (omega arith) (ground arith))
      ∙ ap (λ m. run cfg connected (suc (f - h)) (at m s)) {x = 1 + (h - 1)} {y = h} (omega arith)
      ∙ run-suc (f - h) (at h s) (at (h + 1) s1) out (loop-half h s e (half ∙ ground arith) e')
      ∙ ap (preceded out) (
          ap (λ m. run cfg connected m (at (h + 1) s1)) {x = f - h} {y = (f - h - 1) + 1}
            (omega arith)
          ∙ run-quiet (f - h - 1) 1 (h + 1) s1 e
              (λ i l l'. between cfg h f i d0 (omega arith) (ground arith))
          ∙ ap (λ m. run cfg connected 1 (at m s1)) {x = h + 1 + (f - h - 1)} {y = f} (omega arith)
          ∙ run-one (at f s1)
          ∙ loop-due f s1 e (late ∙ ground arith) (two ∙ ground arith))

  -- The loop `f` after the end of the grid is the one in which a transmission is due; the half of the
  -- slot is counted like the others.
  pub run-done :
      (h f : ℕ) (s : NetSimTool S)
      → HasDeadlines cfg h f
      → h < f
      → ltb s.drivers_ready 2 ≡ false
      → s.run_complete ≡ true
      → run cfg connected f (at 1 s) ≡ transmission_due cfg (at f s)
  unfolding HasDeadlines
  run-done h f s d0 h1 e e' =
      let (late, two) = d0 f (omega arith) in
      ap (λ m. run cfg connected m (at 1 s)) {x = f} {y = (f - 1) + 1} (omega arith)
      ∙ run-counted (f - 1) 1 1 s
          (λ i l l'. loop-done i s e e' ((d0 i (omega arith)).1 ∙ ground arith))
      ∙ ap (λ m. run cfg connected 1 (at m s)) {x = 1 + (f - 1)} {y = f} (omega arith)
      ∙ run-one (at f s)
      ∙ loop-due f s e (late ∙ ground arith) (two ∙ ground arith)

  -- Before the first transmission there is one loop more.
  pub run-first :
      (h f n : ℕ) (s : NetSimTool S)
      → HasDeadlines cfg h f
      → 0 < h
      → h < f
      → ltb s.drivers_ready 2 ≡ false
      → run cfg connected (1 + n) (at 0 s) ≡ run cfg connected n (at 1 s)
  run-first h f n s d0 h0 h1 e =
      run-quiet 1 n 0 s e (λ i l l'. between cfg h f i d0 (omega arith) (ground arith))
