-- ===== src/Core/Jack/Safety.antt =====
-- src/apps/netsim_core/jack_thread.h: the callbacks read no null pointer and stay in bounds.
use netsim.Prelude.{
  ℕ, ◌≤◌, ◌≡◌, Bool, true, false, Bool-cases, inl, inr, refl, sym, ◌∙◌, List, [], ◌∷◌, ◌++◌, Option,
  none, some, arith, length, leb, All, All-append, not, if-true, if-false, subst, ap,
  length-replicate,
}
use netsim.Prelude.Maps.{Map, nat_key}
use netsim.Prelude.Floats.{Double, of_nat}
use netsim.Core.Audio.{AudioBuffer, TaggedAudioBuffer, Marker}
use netsim.Core.Jack.{JackConfig, Output, play, play_continuous, audio_out}
use netsim.Core.Jack.Stream.{samples, HasBlock}
use netsim.Core.Jack.Thread.{
  JackThread, Cycle, output_at, play_ports, capture, jack_process, receive_out,
  jack_buffer_size_change,
}
use netsim.Core.Jack.Capture.{capture_lem, block_of}
use netsim.Core.Jack.Ports.{
  HoldsBlocks-at, IsFilled, IsFilled-assign, Returns, play-Returns, play_ports-IsFilled,
}

-- After a buffer size change: the block of silence is there, and as long as a cycle.
pub record IsSound {ℓ} {D : Type ℓ} (s : JackThread D) : Type ℓ where
  pub silence : TaggedAudioBuffer D
  pub is_set : s.empty_buffer ≡ some silence
  pub has_block : HasBlock silence
  pub long : s.buffer_size ≤ length (samples silence)
  pub filled : IsFilled s.outputs

module _ {ℓ} {D : Type ℓ} ⦃d : Double D⦄ where
  capture-fits :
      (c : Cycle D) (s : JackThread D)
      → length c.captured ≤ s.buffer_size
      → (q : List (AudioBuffer D)) × (capture c s ≡ some (record s { audio_in_buffer = q }))
  capture-fits c s fits =
      let small : leb (length c.captured) s.buffer_size ≡ true = ground arith in
      elim (Bool-cases s.input_port) [
        | inr off ↦ (
          s.audio_in_buffer,
          capture_lem c s ∙ if-true (not s.input_port) (some s) _ (ap not off),
        )
        | inl on ↦ (
          s.audio_in_buffer ++ block_of s.buffer_size c ∷ [],
          capture_lem c s
              ∙ if-false (not s.input_port) (some s) _ (ap not on)
              ∙ if-true _ _ none small,
        )
      ]

  process-eq :
      (cfg : JackConfig D) (c : Cycle D) (n : ℕ) (s : JackThread D) (q : List (AudioBuffer D))
      (m : Map ℕ (Output D)) (outs : List (Option (List D)))
      → cfg.continuous ≡ false
      → capture c s ≡ some (record s { audio_in_buffer = q })
      → (play_ports (play cfg s.empty_buffer c.now n) cfg.first_modem_index s.output_port s.outputs
          ≡ some (m, outs))
      → jack_process cfg n c s ≡ some (record s { audio_in_buffer = q; outputs = m }, outs)
  unfolding jack_process
  process-eq cfg c n s q m outs discrete captured played =
      rw (jack_process, captured)
        (rw (if-false cfg.continuous (play_continuous n) (play cfg s.empty_buffer c.now n) discrete)
          (rw played))

  audio_out-HoldsBlocks :
      (cfg : JackConfig D) (t : TaggedAudioBuffer D) (o : Output D)
      → HasBlock t
      → All HasBlock o.queue
      → All HasBlock (audio_out cfg t o).queue
  unfolding audio_out
  audio_out-HoldsBlocks cfg t o has h = go cfg.continuous t.marker
    where
      go :
          (continuous : Bool) (m : Marker)
          → All HasBlock
              (audio_out (record cfg { continuous = continuous }) (record t { marker = m }) o).queue
      go true m = (has, tt)
      go false Marker.start = (has, tt)
      go false Marker.none =
          All-append HasBlock o.queue (record t { marker = Marker.none } ∷ []) h (has, tt)
      go false Marker.middle =
          All-append HasBlock o.queue (record t { marker = Marker.middle } ∷ []) h (has, tt)
      go false Marker.end =
          All-append HasBlock o.queue (record t { marker = Marker.end } ∷ []) h (has, tt)

  -- In the discrete mode, on a thread that has been told the size of a buffer, a cycle of at most
  -- that size always returns, with one entry for each port, and leaves a sound thread: no null
  -- pointer is read and no sample out of bounds, whatever is queued, if no queued message is empty.
  pub jack_process-IsSound :
      (cfg : JackConfig D) (c : Cycle D) (n : ℕ) (s : JackThread D)
      → cfg.continuous ≡ false
      → IsSound s
      → n ≤ s.buffer_size
      → length c.captured ≤ s.buffer_size
      → (s' : JackThread D) × (outs : List (Option (List D))) × (jack_process cfg n c s
          ≡ some (s', outs))
        × IsSound s'
        × (length outs ≡ length s.output_port)
  unfolding jack_process
  jack_process-IsSound cfg c n s discrete sound short fits =
      let (q, captured) = capture-fits c s fits in
      let (m, outs, played, filled, each) =
        play_ports-IsFilled (play cfg s.empty_buffer c.now n)
          (subst (λ e. Returns (play cfg e c.now n)) (sym sound.is_set)
            (play-Returns cfg sound.silence c.now n sound.has_block
              (omega (arith, short, sound.long))))
          cfg.first_modem_index s.output_port s.outputs sound.filled in
      (
        record s { audio_in_buffer = q; outputs = m },
        outs,
        process-eq cfg c n s q m outs discrete captured played,
        record {
          silence = sound.silence;
          is_set = sound.is_set;
          has_block = sound.has_block;
          long = sound.long;
          filled = filled;
        },
        each,
      )

  -- Whatever marker a message has, a sound thread stays sound when it arrives, if its pointer is
  -- not null.
  pub receive_out-IsSound :
      (cfg : JackConfig D) (t : TaggedAudioBuffer D) (i : ℕ) (s : JackThread D)
      → HasBlock t
      → IsSound s
      → IsSound (receive_out cfg t i s)
  unfolding receive_out
  receive_out-IsSound cfg t i s has sound = record {
    silence = sound.silence;
    is_set = sound.is_set;
    has_block = sound.has_block;
    long = sound.long;
    filled = IsFilled-assign i (audio_out cfg t (output_at s.outputs i)) s.outputs sound.filled (
        audio_out-HoldsBlocks cfg t (output_at s.outputs i) has
          (HoldsBlocks-at s.outputs i sound.filled));
  }

  -- The first buffer size change, and each one after it, makes the thread sound.
  pub jack_buffer_size_change-IsSound :
      (index n : ℕ) (s : JackThread D)
      → IsFilled s.outputs
      → IsSound ((jack_buffer_size_change index n s).0)
  unfolding jack_buffer_size_change
  jack_buffer_size_change-IsSound index n s h = record {
    silence = _;
    is_set = refl;
    has_block = tt;
    long = omega (arith, length-replicate {A = D} n (of_nat 0));
    filled = h;
  }
