-- ===== src/Core/Jack/Underflow.antt =====
-- src/apps/netsim_core/jack_thread.h: a port that runs out of blocks in the middle of a packet.
use netsim.Prelude.{
  ℕ, zero, suc, ◌+◌, ◌≤◌, ◌<◌, ◌≡◌, true, false, ap, ◌∙◌, List, [], ◌∷◌, ◌++◌, some, arith, length,
  drop, take, ltb, if-false,
}
use netsim.Prelude.Int.{ℤ}
use netsim.Prelude.Floats.{Double, of_nat}
use netsim.Core.Audio.{AudioBuffer, TaggedAudioBuffer, Marker, tagged}
use netsim.Core.Jack.{
  JackConfig, Output, Cursor, settle, read_sample, fill, play, play_frames, audio_out,
}
use netsim.Core.Jack.Stream.{samples, HasBlock, concat, samples_of-eq, get_elem?-drop}
use netsim.Core.Jack.Playback.{to_play, play-middle}

module _ {ℓ} {D : Type ℓ} (e : TaggedAudioBuffer D) (e-HasBlock : HasBlock e) where
  -- The cursor in the block of silence, and the one in the last block of the queue.
  abbrev in_silence : ℕ → Cursor D
  in_silence j = record { tx = e; index = j; queue = [] }

  abbrev in_last : TaggedAudioBuffer D → ℕ → Cursor D
  in_last q i = record { tx = q; index = i; queue = q ∷ [] }

  read_silence :
      (j : ℕ)
      → j < length (samples e)
      → (x : D) × (read_sample (some e) (in_silence j) ≡ some (x, in_silence (j + 1)))
  unfolding read_sample settle
  read_silence j more =
      let (x, got, _) = get_elem?-drop (samples e) j more in
      let inside : ltb j (length (samples e)) ≡ true = ground arith in
      (
        x,
        rw (read_sample, settle, samples_of-eq e e-HasBlock)
            (rw (inside) (rw (samples_of-eq e e-HasBlock) (rw got))),
      )

  read_last :
      (q : TaggedAudioBuffer D) (i : ℕ)
      → HasBlock q
      → i < length (samples q)
      → (x : D) × (read_sample (some e) (in_last q i) ≡ some (x, in_last q (i + 1)))
  unfolding read_sample settle
  read_last q i has more =
      let (x, got, _) = get_elem?-drop (samples q) i more in
      let inside : ltb i (length (samples q)) ≡ true = ground arith in
      (
        x,
        rw (read_sample, settle, samples_of-eq q has)
            (rw (inside) (rw (samples_of-eq q has) (rw got))),
      )

  -- At the end of the last block the loop goes on in the block of silence.
  read_over :
      (q : TaggedAudioBuffer D)
      → HasBlock q
      → read_sample (some e) (in_last q (length (samples q))) ≡ read_sample (some e) (in_silence 0)
  unfolding read_sample settle
  read_over q has =
      let over : ltb (length (samples q)) (length (samples q)) ≡ false = ground arith in
      rw (read_sample, settle, samples_of-eq q has) (rw over)

  -- Where the loop ends.
  abbrev EndsAt : D → ℕ → Cursor D → ℕ → Type ℓ
  EndsAt nought n c j = (out : List D) × (fill nought (some e) n 0 c ≡ some (out, in_silence j))

  EndsAt-step :
      (nought x : D) (n j : ℕ) (c c' : Cursor D)
      → read_sample (some e) c ≡ some (x, c')
      → EndsAt nought n c' j
      → EndsAt nought (suc n) c j
  unfolding fill
  EndsAt-step nought x n j c c' got (out, rest) = (x ∷ out, rw (fill, got) (rw rest))

  fill_silence :
      (nought : D) (n j k : ℕ)
      → k ≡ j + n
      → k ≤ length (samples e)
      → EndsAt nought n (in_silence j) k
  unfolding fill
  fill_silence nought zero j k sum short = ([], ap (λ i. some ([], in_silence i)) (omega arith))
  fill_silence nought (suc n) j k sum short =
      let (x, got) = read_silence j (omega arith) in
      EndsAt-step nought x n k (in_silence j) (in_silence (j + 1)) got
        (fill_silence nought n (j + 1) k (omega arith) short)

  fill_last :
      (nought : D) (q : TaggedAudioBuffer D) (n r m i : ℕ)
      → HasBlock q
      → n ≡ r + suc m
      → length (samples q) ≡ i + r
      → suc m ≤ length (samples e)
      → EndsAt nought n (in_last q i) (suc m)
  fill_last nought q zero r m i has all sum short = absurd (omega arith)
  fill_last nought q (suc n) zero m i has all sum short =
      let (x, got) = read_silence 0 (omega arith) in
      let over : read_sample (some e) (in_last q i) ≡ some (x, in_silence 1) =
        ap (λ k. read_sample (some e) (in_last q k)) {x = i} {y = length (samples q)} (omega arith)
        ∙ read_over q has
        ∙ got in
      EndsAt-step nought x n (suc m) (in_last q i) (in_silence 1) over
        (fill_silence nought n 1 (suc m) (omega arith) short)
  fill_last nought q (suc n) (suc r) m i has all sum short =
      let (x, got) = read_last q i has (omega arith) in
      EndsAt-step nought x n (suc m) (in_last q i) (in_last q (i + 1)) got
        (fill_last nought q n r m (i + 1) has (omega arith) (omega arith) short)

appends {ℓ} :
    {D : Type ℓ} (cfg : JackConfig D) (b : AudioBuffer D) (id : ℤ) (o : Output D)
    → cfg.continuous ≡ false
    → let t = tagged (some b) Marker.middle id in
      audio_out cfg t o ≡ record o { queue = o.queue ++ t ∷ [] }
unfolding audio_out
appends cfg b id o discrete = if-false cfg.continuous _ _ discrete

module _ {ℓ} {D : Type ℓ} ⦃d : Double D⦄ (e : TaggedAudioBuffer D) (e-HasBlock : HasBlock e) where
  -- If a port runs out of blocks in the middle of a packet and plays `m + 1` samples of silence in that
  -- cycle, the next block of the packet is played from its sample `m + 1` on, in the discrete mode:
  -- its first samples are lost. The block of silence is at least as long as a cycle.
  pub play-late :
      (cfg : JackConfig D) (now later : D) (n r m i : ℕ) (q : TaggedAudioBuffer D)
      (b : AudioBuffer D) (id : ℤ)
      → cfg.continuous ≡ false
      → HasBlock q
      → n ≡ r + suc m
      → length (samples q) ≡ i + r
      → n ≤ length (samples e)
      → let o : Output D = record { queue = q ∷ []; index = i; new_packet = false } in
        (o1 : Output D) × (out : List D) × (o2 : Output D) × (play cfg (some e) now n o
          ≡ some (o1, some out))
        × (play cfg (some e) later n (audio_out cfg (tagged (some b) Marker.middle id) o1)
            ≡ some (o2, some (take n (drop (suc m) (b.samples) ++ samples e))))
  unfolding play play_frames to_play concat
  play-late cfg now later n r m i q b id discrete has all sum short =
      let (out, ran) = fill_last e e-HasBlock (of_nat 0) q n r m i has all sum (omega arith) in
      let t = tagged (some b) Marker.middle id in
      let o1 : Output D = record { queue = []; index = suc m; new_packet = false } in
      let o : Output D = record { queue = t ∷ []; index = suc m; new_packet = false } in
      let appended : audio_out cfg t o1 ≡ o = appends cfg b id o1 discrete in
      let (o2, played, _, _) = play-middle e e-HasBlock cfg later n t [] (suc m) (tt, tt) short in
      (o1, out, o2, rw (play, play_frames, ran), ap (play cfg (some e) later n) appended ∙ played)
