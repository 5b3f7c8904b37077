-- ===== src/Core/Jack/Playback.antt =====
-- src/apps/netsim_core/jack_thread.h: what a port plays in one cycle.
use netsim.Prelude.{
  ℕ, ◌+◌, ◌-◌, ◌≤◌, ◌<◌, ◌≡◌, Bool, true, false, Bool-cases, inl, inr, refl, ◌∙◌, List, [], ◌∷◌,
  ◌++◌, none, some, arith, length, length-append, take, drop, replicate, All, ltb, ◌⊎◌,
}
use netsim.Prelude.Int.{ℤ, to_size}
use netsim.Prelude.Floats.{Double, of_nat}
use netsim.Core.Audio.{AudioBuffer, TaggedAudioBuffer, Marker, tagged}
use netsim.Core.Jack.{JackConfig, Output, Cursor, frame_start, play_frames, play, fill}
use netsim.Core.Jack.Stream.{samples, HasBlock, IsPlayable, concat, pending}
use netsim.Core.Jack.Filling.{left, fill-left}

-- What a port has to play: its queue from the current sample on, and the block of silence behind it; if
-- the queue is empty, what is left of the block of silence.
unfoldable pub to_play {ℓ} : {D : Type ℓ} → TaggedAudioBuffer D → Output D → List D
to_play e o = elim o.queue [
  | [] ↦ drop o.index (samples e)
  | t ∷ rest ↦ drop o.index (samples t) ++ concat rest (samples e)
]

concat-length {ℓ} :
    {D : Type ℓ} (ts : List (TaggedAudioBuffer D)) (silence : List D)
    → length silence ≤ length (concat ts silence)
unfolding concat
concat-length [] silence = omega arith
concat-length (t ∷ ts) silence =
    omega (arith, length-append (samples t) (concat ts silence), concat-length ts silence)

-- A port has `rest` to play, and no null pointer.
abbrev pub GoesOn {ℓ} : {D : Type ℓ} → TaggedAudioBuffer D → Output D → List D → Type ℓ
GoesOn e o rest = All HasBlock o.queue × (to_play e o ≡ rest)

-- A port with a new packet.
abbrev pub waiting {ℓ} :
    {D : Type ℓ} → TaggedAudioBuffer D → List (TaggedAudioBuffer D) → ℕ → Output D
waiting t rest index = record { queue = t ∷ rest; index = index; new_packet = true }

module _ {ℓ} {D : Type ℓ} ⦃d : Double D⦄ (e : TaggedAudioBuffer D) (e-HasBlock : HasBlock e) where
  to_play-front :
      (c : Cursor D) (new : Bool)
      → IsPlayable e c
      → to_play e (record { queue = c.queue; index = c.index; new_packet = new })
        ≡ left e e-HasBlock c
  unfolding to_play left pending
  to_play-front c new playable = elim playable.at_front [
    | inl (none_left, silent) ↦ rw (none_left, silent) refl
    | inr (rest, eq) ↦ rw eq refl
  ]

  -- What a port plays: the lead and then its stream, of which the rest stays.
  abbrev Plays : ℕ → ℕ → ℕ → TaggedAudioBuffer D → Output D → Type ℓ
  Plays k lead n t o =
      (o' : Output D) × (play_frames (some e) k lead t o
        ≡ some (o', some (replicate lead (of_nat 0) ++ take n (to_play e o))))
      × GoesOn e o' (drop n (to_play e o))
      × (o'.new_packet ≡ o.new_packet)

  filled-Plays :
      (k lead n : ℕ) (t : TaggedAudioBuffer D) (o : Output D) (c' : Cursor D)
      → (fill (of_nat 0) (some e) k lead (record { tx = t; index = o.index; queue = o.queue })
          ≡ some (replicate lead (of_nat 0) ++ take n (to_play e o), c'))
      → IsPlayable e c'
      → left e e-HasBlock c' ≡ drop n (to_play e o)
      → Plays k lead n t o
  unfolding play_frames
  filled-Plays k lead n t o c' filled playable after = (
    record o { index = c'.index; queue = c'.queue },
    rw (play_frames, filled) refl,
    (playable.queued, to_play-front c' o.new_packet playable ∙ after),
    refl,
  )

  -- The frames are the lead and then the stream.
  pub play_frames-Plays :
      (k lead n : ℕ) (t : TaggedAudioBuffer D) (rest : List (TaggedAudioBuffer D)) (index : ℕ)
      (new : Bool)
      → All HasBlock (t ∷ rest)
      → k ≡ lead + n
      → n ≤ length (samples e)
      → Plays k lead n t (record { queue = t ∷ rest; index = index; new_packet = new })
  unfolding to_play left pending
  play_frames-Plays k lead n t rest index new h sum short =
      let c : Cursor D = record { tx = t; index = index; queue = t ∷ rest } in
      let (c', filled, playable, after) =
        fill-left e e-HasBlock (of_nat 0) k lead n c sum
          (record { at_front = inr (rest, refl); current = h.0; queued = h })
          (omega (
            arith,
            length-append (drop index (samples t)) (concat rest (samples e)),
            concat-length rest (samples e),
          )) in
      filled-Plays k lead n t (record { queue = t ∷ rest; index = index; new_packet = new }) c'
        filled playable after

  -- In the middle of a packet a port whose queue is not empty, and holds no null pointer, plays
  -- the next `n` samples of its stream, where the block of silence has as many; behind them it goes on
  -- with the rest of the stream, which is the rest of the silence if its queue is empty. Nothing faults.
  pub play-middle :
      (cfg : JackConfig D) (now : D) (n : ℕ) (t : TaggedAudioBuffer D)
      (rest : List (TaggedAudioBuffer D)) (index : ℕ)
      → All HasBlock (t ∷ rest)
      → n ≤ length (samples e)
      → let o : Output D = record { queue = t ∷ rest; index = index; new_packet = false } in
        (o' : Output D) × (play cfg (some e) now n o ≡ some (o', some (take n (to_play e o))))
        × GoesOn e o' (drop n (to_play e o))
        × (o'.new_packet ≡ false)
  unfolding play
  play-middle cfg now n t rest index h short =
      play_frames-Plays n 0 n t rest index false h (omega arith) short

  -- A new packet in a queue without null pointers waits, with nothing written and its flag kept, if
  -- it starts behind this cycle or has fewer blocks than the minimum; else the port plays zeros up
  -- to the start and then its stream from the first sample, `n` samples in all, and the flag is
  -- cleared. Here the block of silence has at least `n` samples. Nothing faults.
  pub play-start :
      (cfg : JackConfig D) (now : D) (n : ℕ) (b : AudioBuffer D) (m : Marker) (id : ℤ)
      (rest : List (TaggedAudioBuffer D)) (index : ℕ)
      → All HasBlock rest
      → n ≤ length (samples e)
      → let lead = frame_start cfg now b.buffer_start_time in
        let t = tagged (some b) m id in
        (((n < lead) ⊎ (length (t ∷ rest) < to_size cfg.min_playback_buffer_size))
          × (play cfg (some e) now n (waiting t rest index) ≡ some (waiting t rest 0, none)))
        ⊎ ((lead ≤ n)
            × (to_size cfg.min_playback_buffer_size ≤ length (t ∷ rest))
            × ((o' : Output D) × (play cfg (some e) now n (waiting t rest index)
                  ≡ some (
                    o',
                    some (
                        replicate lead (of_nat 0)
                        ++ take (n - lead) (to_play e (waiting t rest 0))),
                  ))
                × GoesOn e o' (drop (n - lead) (to_play e (waiting t rest 0)))
                × (o'.new_packet ≡ false)))
  unfolding play to_play
  play-start cfg now n b m id rest index h short =
      let lead = frame_start cfg now b.buffer_start_time in
      let t = tagged (some b) m id in
      elim (Bool-cases (ltb n lead)) [
        | inl late ↦ inl (inl (ground arith), rw late)
        | inr soon ↦
            elim (Bool-cases (ltb (length (t ∷ rest)) (to_size cfg.min_playback_buffer_size))) [
              | inl few ↦ inl (inr (ground arith), rw (soon, few))
              | inr enough ↦
                  let (o', played, on, flag) =
                    play_frames-Plays n lead (n - lead) t rest 0 false (tt, h) (ground arith)
                      (omega arith) in
                  inr (ground arith, ground arith, (o', rw (soon, enough) played, on, flag))
            ]
      ]
