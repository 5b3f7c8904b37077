-- ===== src/Core/Jack/Filling.antt =====
-- src/apps/netsim_core/jack_thread.h: the loop over the frames plays the stream of the queue.
use netsim.Prelude.{
  ℕ, zero, suc, ◌+◌, ◌≤◌, ◌<◌, ◌≡◌, true, false, Bool-cases, inl, inr, refl, sym, ap, subst, ◌∙◌,
  List, [], ◌∷◌, ◌++◌, Option, some, arith, length, take, drop, replicate, All, ltb,
}
use netsim.Core.Audio.{TaggedAudioBuffer}
use netsim.Core.Jack.{Cursor, front, settle, read_sample, fill}
use netsim.Core.Jack.Stream.{
  samples, HasBlock, concat, pending, IsFront, IsPlayable, drop-all, get_elem?-drop, samples_of-eq,
  pending-step,
}

module _ {ℓ} {D : Type ℓ} (e : TaggedAudioBuffer D) (e-HasBlock : HasBlock e) where
  -- With samples left the loop finds the block that has the next one, and the stream stays.
  abbrev Settled : TaggedAudioBuffer D → ℕ → List (TaggedAudioBuffer D) → Option (Cursor D) → Type ℓ
  Settled tx index queue r =
      (c : Cursor D) × (r ≡ some c)
      × IsPlayable e c
      × (c.index < length (samples c.tx))
      × (pending (samples e) c.tx c.index c.queue ≡ pending (samples e) tx index queue)

  settle_here :
      (tx : TaggedAudioBuffer D) (index : ℕ) (queue : List (TaggedAudioBuffer D))
      → IsFront e tx queue
      → HasBlock tx
      → All HasBlock queue
      → ltb index (length (samples tx)) ≡ true
      → Settled tx index queue (settle (some e) tx index queue)
  unfolding settle
  settle_here tx index [] f h hs more = (
    record { tx = tx; index = index; queue = [] },
    rw (samples_of-eq tx h, settle) (rw more),
    record { at_front = f; current = h; queued = hs },
    ground arith,
    refl,
  )
  settle_here tx index (q ∷ rest) f h hs more = (
    record { tx = tx; index = index; queue = q ∷ rest },
    rw (samples_of-eq tx h, settle) (rw more),
    record { at_front = f; current = h; queued = hs },
    ground arith,
    refl,
  )

  over-drop :
      (tx : TaggedAudioBuffer D) (index : ℕ)
      → ltb index (length (samples tx)) ≡ false
      → drop index (samples tx) ≡ []
  over-drop tx index over = drop-all index (samples tx) (ground arith)

  -- The loop goes on to the next block.
  settle_over :
      (tx t : TaggedAudioBuffer D) (index : ℕ) (q : TaggedAudioBuffer D)
      (rest : List (TaggedAudioBuffer D))
      → HasBlock tx
      → ltb index (length (samples tx)) ≡ false
      → front (some e) rest ≡ some t
      → concat rest (samples e) ≡ pending (samples e) t 0 rest
      → Settled t 0 rest (settle (some e) t 0 rest)
      → Settled tx index (q ∷ rest) (settle (some e) tx index (q ∷ rest))
  unfolding settle pending
  settle_over tx t index q rest h over next flat (c, found, playable, more, same) = (
    c,
    rw (samples_of-eq tx h, settle) (rw (over, next) found),
    playable,
    more,
    rw (over-drop tx index over) (same ∙ sym flat),
  )

  settle-Settled :
      (tx : TaggedAudioBuffer D) (index : ℕ) (queue : List (TaggedAudioBuffer D))
      → IsFront e tx queue
      → HasBlock tx
      → All HasBlock queue
      → 0 < length (pending (samples e) tx index queue)
      → Settled tx index queue (settle (some e) tx index queue)
  unfolding pending concat
  settle-Settled tx index [] f h hs left = elim (Bool-cases (ltb index (length (samples tx)))) [
    | inl more ↦ settle_here tx index [] f h hs more
    | inr over ↦ absurd (omega (arith, ap length (over-drop tx index over)))
  ]
  settle-Settled tx index (q ∷ []) f h hs left =
      elim (Bool-cases (ltb index (length (samples tx)))) [
        | inl more ↦ settle_here tx index (q ∷ []) f h hs more
        | inr over ↦ settle_over tx e index q [] h over refl refl (
            settle-Settled e 0 [] (inl (refl, refl)) e-HasBlock tt
              (rw (over-drop tx index over) at left))
      ]
  settle-Settled tx index (q ∷ t ∷ rest) f h hs left =
      elim (Bool-cases (ltb index (length (samples tx)))) [
        | inl more ↦ settle_here tx index (q ∷ t ∷ rest) f h hs more
        | inr over ↦ settle_over tx t index q (t ∷ rest) h over refl refl (
            settle-Settled t 0 (t ∷ rest) (inr (rest, refl)) hs.1.0 hs.1
              (rw (over-drop tx index over) at left))
      ]

  -- One sample of the stream is read, with no fault, and the rest of it stays.
  read_sample-pending :
      (c : Cursor D)
      → IsPlayable e c
      → 0 < length (pending (samples e) c.tx c.index c.queue)
      → (x : D) × (c' : Cursor D) × (read_sample (some e) c ≡ some (x, c'))
        × IsPlayable e c'
        × (pending (samples e) c.tx c.index c.queue
            ≡ x ∷ pending (samples e) c'.tx c'.index c'.queue)
  unfolding read_sample
  read_sample-pending c playable left =
      let (c1, found, playable1, more, same) =
        settle-Settled c.tx c.index c.queue playable.at_front playable.current playable.queued
          left in
      let (x, got, split) = get_elem?-drop (samples c1.tx) c1.index more in
      (
        x,
        record c1 { index = c1.index + 1 },
        rw (read_sample, found) (rw (samples_of-eq c1.tx playable1.current) (rw (got))),
        record {
          current = playable1.current;
          queued = playable1.queued;
          at_front = playable1.at_front;
        },
        sym same ∙ pending-step (samples e) c1.tx c1.index c1.queue split,
      )

  unfoldable pub left : Cursor D → List D
  left c = pending (samples e) c.tx c.index c.queue

  -- What `n` frames played from `c` are.
  Played : D → ℕ → Cursor D → Type ℓ
  Played nought n c =
      (c' : Cursor D) × (fill nought (some e) n 0 c ≡ some (take n (left c), c'))
      × IsPlayable e c'
      × (left c' ≡ drop n (left c))

  Played-step :
      (nought : D) (n : ℕ) (c c1 : Cursor D) (x : D)
      → read_sample (some e) c ≡ some (x, c1)
      → left c ≡ x ∷ left c1
      → Played nought n c1
      → Played nought (suc n) c
  unfolding fill Played
  Played-step nought n c c1 x got flat (c2, more, playable, rest) =
      (c2, rw (fill, got) (rw (more) (rw flat)), playable, rw flat rest)

  fill_stream :
      (nought : D) (n : ℕ) (c : Cursor D) → IsPlayable e c → n ≤ length (left c) → Played nought n c
  unfolding fill left Played
  fill_stream nought zero c playable h = (c, refl, playable, refl)
  fill_stream nought (suc n) c playable h =
      let (x, c1, got, playable1, flat) = read_sample-pending c playable (omega arith) in
      Played-step nought n c c1 x got flat
        (fill_stream nought n c1 playable1 (omega (arith, ap length flat)))

  -- The loop plays the lead as zeros and then the stream, and the rest of the stream stays.
  pub fill-left :
      (nought : D) (k lead n : ℕ) (c : Cursor D)
      → k ≡ lead + n
      → IsPlayable e c
      → n ≤ length (left c)
      → (c' : Cursor D) × (fill nought (some e) k lead c
          ≡ some (replicate lead nought ++ take n (left c), c'))
        × IsPlayable e c'
        × (left c' ≡ drop n (left c))
  unfolding fill Played
  fill-left nought k zero n c sum playable h =
      subst
        (λ k.
          (c' : Cursor D) × (fill nought (some e) k 0 c ≡ some (take n (left c), c'))
          × IsPlayable e c'
          × (left c' ≡ drop n (left c)))
        (omega arith) (fill_stream nought n c playable h)
  fill-left nought zero (suc lead) n c sum playable h = absurd (omega arith)
  fill-left nought (suc k) (suc lead) n c sum playable h =
      let (c1, more, playable1, rest) = fill-left nought k lead n c (omega arith) playable h in
      (c1, rw more, playable1, rest)
