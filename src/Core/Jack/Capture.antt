-- ===== src/Core/Jack/Capture.antt =====
-- src/apps/netsim_core/jack_thread.h: the way of a block from the capture port to the group that
-- `loop` publishes to.
use netsim.Prelude.{
  ℕ, zero, suc, ◌+◌, ◌-◌, ◌≤◌, ◌<◌, ◌≡◌, true, false, Bool-cases, inl, inr, refl, sym, List, [],
  ◌∷◌, ◌++◌, none, some, arith, length, length-append, replicate, length-replicate, leb, not,
  if◌then◌else◌, append_assoc, map-append, flatten, length-map, map, All, subst, ap, ◌∙◌,
  append-nil,
}
use netsim.Prelude.Int.{to_size}
use netsim.Prelude.Floats.{Double, of_nat}
use netsim.Core.Audio.{AudioBuffer}
use netsim.Core.Jack.{JackConfig}
use netsim.Core.Jack.Thread.{
  JackThread, Cycle, overwrite, take_front, pop_front, capture, captures, loop, loops,
}

pub overwrite-fits {ℓ} :
    {D : Type ℓ} (nought : D) (n : ℕ) (xs : List D)
    → length xs ≤ n
    → overwrite (replicate n nought) xs ≡ some (xs ++ replicate (n - length xs) nought)
unfolding overwrite
overwrite-fits nought n [] h = ap (λ k. some (replicate k nought)) (omega arith)
overwrite-fits nought zero (x ∷ xs) h = absurd (omega arith)
overwrite-fits nought (suc n) (x ∷ xs) h = rw (overwrite-fits nought n xs (omega arith)) (
    ap (λ k. some (x ∷ xs ++ replicate k nought)) {x = n - length xs} {y = suc n - suc (length xs)}
      (omega arith))

pub overwrite-over {ℓ} :
    {D : Type ℓ} (target xs : List D) → length target < length xs → overwrite target xs ≡ none
unfolding overwrite
overwrite-over target [] h = absurd (omega arith)
overwrite-over [] (x ∷ xs) h = refl
overwrite-over (t ∷ target) (x ∷ xs) h = rw (overwrite-over target xs (omega arith))

module _ {ℓ} {D : Type ℓ} ⦃d : Double D⦄ where
  -- The block of a cycle: the captured samples, and zeros up to the size of a buffer.
  abbrev pub block_of : ℕ → Cycle D → AudioBuffer D
  block_of size c = record {
    buffer_start_time = c.now;
    jack_frame_time = c.frame_time;
    samples = c.captured ++ replicate (size - length c.captured) (of_nat 0);
  }

  -- With a capture port, a cycle queues its block, where the buffer size that was announced last is
  -- enough for its samples, and writes out of bounds where it is not; without one it does nothing.
  pub capture_lem :
      (c : Cycle D) (s : JackThread D)
      → capture c s ≡ (
          if not s.input_port
          then some s
          else if leb (length c.captured) s.buffer_size
          then some
              (record s { audio_in_buffer = s.audio_in_buffer ++ block_of s.buffer_size c ∷ [] })
          else none)
  unfolding capture
  capture_lem c s = elim (Bool-cases s.input_port) [
    | inr off ↦ simp (off)
    | inl on ↦ elim (Bool-cases (leb (length c.captured) s.buffer_size)) [
      | inl fits ↦
          simp (on, fits, overwrite-fits {D = D} (of_nat 0) s.buffer_size c.captured (ground arith))
      | inr over ↦ simp (
        on,
        over,
        overwrite-over {D = D} (replicate s.buffer_size (of_nat 0)) c.captured
            (ground (arith, length-replicate {A = D} s.buffer_size (of_nat 0))),
      )
    ]
  ]

  -- A cycle that JACK runs with the announced buffer size.
  abbrev pub Fits : ℕ → Cycle D → Type 0
  Fits size c = length c.captured ≤ size

  -- The thread with other blocks in its queue.
  abbrev queued : JackThread D → List (AudioBuffer D) → JackThread D
  queued s blocks = record s { audio_in_buffer = blocks }

  captures-eq :
      (cs : List (Cycle D)) (s : JackThread D)
      → s.input_port ≡ true
      → All (Fits s.buffer_size) cs
      → captures cs s ≡ some (queued s (s.audio_in_buffer ++ map (block_of s.buffer_size) cs))
  unfolding captures
  captures-eq [] s on h = ap (λ l. some (queued s l)) (sym (append-nil s.audio_in_buffer))
  captures-eq (c ∷ cs) s on h =
      let s1 = queued s (s.audio_in_buffer ++ block_of s.buffer_size c ∷ []) in
      let one : capture c s ≡ some s1 = ground (arith, capture_lem c s, h.0) in
      subst
        (λ o.
          (elim o [ none ↦ none | some s' ↦ captures cs s' ])
          ≡ some (queued s (s.audio_in_buffer ++ map (block_of s.buffer_size) (c ∷ cs))))
        (sym one)
        (captures-eq cs s1 on h.1
          ∙ ap (λ l. some (queued s l))
              (append_assoc s.audio_in_buffer (block_of s.buffer_size c ∷ [])
                (map (block_of s.buffer_size) cs)))

  -- What calls of `loop` leave: the blocks that were queued and those of the cycles, in order, are
  -- the ones that it published and the ones that are still queued.
  pub record Keeps (s : JackThread D) (cs : List (Cycle D)) (s' : JackThread D)
      (out : List (AudioBuffer D)) : Type ℓ where
    pub order : out ++ s'.audio_in_buffer ≡ s.audio_in_buffer ++ map (block_of s.buffer_size) cs
    pub port : s'.input_port ≡ true
    pub size : s'.buffer_size ≡ s.buffer_size

  loop-Keeps :
      (cfg : JackConfig D) (cs : List (Cycle D)) (s : JackThread D) (q : List (AudioBuffer D))
      → s.input_port ≡ true
      → All (Fits s.buffer_size) cs
      → length q < to_size cfg.max_buffer_size
      → (s' : JackThread D) × (out : List (AudioBuffer D)) × (loop cfg cs (queued s q)
          ≡ some (s', out))
        × Keeps (queued s q) cs s' out
  unfolding loop take_front pop_front
  loop-Keeps cfg cs s [] on h few = (
    queued s (map (block_of s.buffer_size) cs),
    [],
    rw (loop, captures-eq cs (queued s []) on h),
    record { order = refl; port = on; size = refl },
  )
  loop-Keeps cfg cs s (b ∷ q) on h few =
      let fits : leb (to_size cfg.max_buffer_size) (length (b ∷ q)) ≡ false = ground arith in
      (
        queued s (q ++ map (block_of s.buffer_size) cs),
        b ∷ [],
        rw (loop, take_front, fits) (rw (captures-eq cs (queued s (b ∷ q)) on h)),
        record { order = refl; port = on; size = refl },
      )

  Keeps-length :
      (s : JackThread D) (cs : List (Cycle D)) (s' : JackThread D) (out : List (AudioBuffer D))
      → Keeps s cs s' out
      → length s'.audio_in_buffer ≤ length s.audio_in_buffer + length cs
  Keeps-length s cs s' out kept = omega (
    arith,
    ap length kept.order,
    length-append out s'.audio_in_buffer,
    length-append s.audio_in_buffer (map (block_of s.buffer_size) cs),
    length-map (block_of s.buffer_size) cs,
  )

  Keeps-trans :
      (s s1 s2 : JackThread D) (cs ds : List (Cycle D)) (out out' : List (AudioBuffer D))
      → Keeps s cs s1 out
      → Keeps s1 ds s2 out'
      → Keeps s (cs ++ ds) s2 (out ++ out')
  Keeps-trans s s1 s2 cs ds out out' kept kept' =
      let f = block_of s.buffer_size in
      let later : out' ++ s2.audio_in_buffer ≡ s1.audio_in_buffer ++ map f ds =
        subst (λ n. out' ++ s2.audio_in_buffer ≡ s1.audio_in_buffer ++ map (block_of n) ds)
          kept.size kept'.order in
      record {
        order =
            append_assoc out out' s2.audio_in_buffer
            ∙ ap (λ l. out ++ l) later
            ∙ sym (append_assoc out s1.audio_in_buffer (map f ds))
            ∙ ap (λ l. l ++ map f ds) kept.order
            ∙ append_assoc s.audio_in_buffer (map f cs) (map f ds)
            ∙ ap (λ l. s.audio_in_buffer ++ l) (sym (map-append f cs ds));
        port = kept'.port;
        size = kept'.size ∙ kept.size;
      }

  loops-step :
      (cfg : JackConfig D) (cs : List (Cycle D)) (rest : List (List (Cycle D)))
      (s s1 s2 : JackThread D) (out1 out2 : List (AudioBuffer D))
      → loop cfg cs s ≡ some (s1, out1)
      → loops cfg rest s1 ≡ some (s2, out2)
      → loops cfg (cs ∷ rest) s ≡ some (s2, out1 ++ out2)
  unfolding loops
  loops-step cfg cs rest s s1 s2 out1 out2 one more = rw (loops, one) (rw more)

  -- Over any number of calls of `loop`, with any cycles between their steps that fit the buffer,
  -- nothing faults, and the blocks that were queued and those that the cycles captured are, in
  -- order, the ones published and the ones still queued, where fewer than the maximum can queue up.
  pub loops-Keeps :
      (cfg : JackConfig D) (runs : List (List (Cycle D))) (s : JackThread D)
      → s.input_port ≡ true
      → All (All (Fits s.buffer_size)) runs
      → length s.audio_in_buffer + length (flatten runs) < to_size cfg.max_buffer_size
      → (s' : JackThread D) × (out : List (AudioBuffer D)) × (loops cfg runs s ≡ some (s', out))
        × Keeps s (flatten runs) s' out
  unfolding loops
  loops-Keeps cfg [] s on h few =
      (s, [], refl, record { order = sym (append-nil s.audio_in_buffer); port = on; size = refl })
  loops-Keeps cfg (cs ∷ rest) s on h few =
      let (s1, out1, ran, kept) =
        loop-Keeps cfg cs s s.audio_in_buffer on h.0
          (omega (arith, length-append cs (flatten rest))) in
      let (s2, out2, ran2, kept2) =
        loops-Keeps cfg rest s1 kept.port (subst (λ n. All (All (Fits n)) rest) (sym kept.size) h.1)
          (omega (arith, length-append cs (flatten rest), Keeps-length s cs s1 out1 kept)) in
      (
        s2,
        out1 ++ out2,
        loops-step cfg cs rest s s1 s2 out1 out2 ran ran2,
        Keeps-trans s s1 s2 cs (flatten rest) out1 out2 kept kept2,
      )
