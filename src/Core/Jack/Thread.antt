-- ===== src/Core/Jack/Thread.antt =====
-- src/apps/netsim_core/jack_thread.h: the state of the thread, its callbacks and its loop. The
-- callbacks run in threads of JACK; the loop's two locked sections are steps of their own, with
-- callbacks in between.
use netsim.Prelude.{
  ℕ, ◌+◌, Bool, true, false, List, [], ◌∷◌, ◌++◌, Option, none, some, length, replicate, ltb, leb,
  ◌&&◌, ◌==◌, if◌then◌else◌,
}
use netsim.Prelude.Int.{negsuc, to_size}
use netsim.Prelude.Floats.{Double, of_nat}
use netsim.Prelude.Maps.{Map, lookup, assign, nat_key}
use netsim.Core.Audio.{AudioBuffer, TaggedAudioBuffer, Marker, tagged}
use netsim.Core.Jack.{JackConfig, Output, play, play_continuous, audio_out}

pub record JackThread {ℓ} (D : Type ℓ) : Type ℓ where
  pub input_port : Bool
  pub output_port : List Bool
  pub buffer_size : ℕ
  pub audio_in_buffer : List (AudioBuffer D)
  pub outputs : Map ℕ (Output D)
  pub empty_buffer : Option (TaggedAudioBuffer D)

-- What a cycle finds: the clock, JACK's frame time and the samples of the capture port.
pub record Cycle {ℓ} (D : Type ℓ) : Type ℓ where
  pub now : D
  pub frame_time : ℕ
  pub captured : List D

module _ {ℓ} {D : Type ℓ} where
  -- `do_capture_`
  unfoldable pub do_capture : JackConfig D → ℕ → Bool
  do_capture cfg index =
      leb cfg.first_modem_index index
      && ltb index (cfg.first_modem_index + cfg.local_number_of_modems)

  -- `samples[frame] = *sample` for each frame.
  unfoldable pub overwrite : List D → List D → Option (List D)
  overwrite target [] = some target
  overwrite [] (x ∷ xs) = none
  overwrite (t ∷ target) (x ∷ xs) = elim (overwrite target xs) [
    | none ↦ none
    | some out ↦ some (x ∷ out)
  ]

  -- An entry of the three maps, which `operator[]` makes if there is none.
  abbrev pub output_at : Map ℕ (Output D) → ℕ → Output D
  output_at m i = elim (lookup i m) [
    | none ↦ record { queue = []; index = 0; new_packet = false }
    | some o ↦ o
  ]

  -- The loop over the output ports, from `output_port_i + first_modem_index_ = i` on.
  unfoldable pub play_ports :
      (Output D → Option (Output D × Option (List D)))
      → ℕ
      → List Bool
      → Map ℕ (Output D)
      → Option (Map ℕ (Output D) × List (Option (List D)))
  play_ports port i [] m = some (m, [])
  play_ports port i (false ∷ ports) m = elim (play_ports port (i + 1) ports m) [
    | none ↦ none
    | some (m', outs) ↦ some (m', none ∷ outs)
  ]
  play_ports port i (true ∷ ports) m = elim (port (output_at m i)) [
    | none ↦ none
    | some (o, out) ↦ elim (play_ports port (i + 1) ports (assign i o m)) [
      | none ↦ none
      | some (m', outs) ↦ some (m', out ∷ outs)
    ]
  ]

  -- The callback of `audio_out` for the group of one modem.
  unfoldable pub receive_out : JackConfig D → TaggedAudioBuffer D → ℕ → JackThread D → JackThread D
  receive_out cfg t i s = record s {
    outputs = assign i (audio_out cfg t (output_at s.outputs i)) s.outputs;
  }

  -- The first locked section of `loop`: what it is about to publish. `none` waits.
  unfoldable pub take_front :
      JackConfig D → JackThread D → Option (JackThread D × Option (AudioBuffer D))
  take_front cfg s = elim s.audio_in_buffer [
    | [] ↦ none
    | b ∷ _ ↦
        if leb (to_size cfg.max_buffer_size) (length s.audio_in_buffer)
        then some (record s { audio_in_buffer = [] }, none)
        else some (s, some b)
  ]

  -- The second locked section; a pop from an empty deque is a fault.
  unfoldable pub pop_front : JackThread D → Option (JackThread D)
  pop_front s = elim s.audio_in_buffer [
    | [] ↦ none
    | _ ∷ rest ↦ some (record s { audio_in_buffer = rest })
  ]

module _ {ℓ} {D : Type ℓ} ⦃d : Double D⦄ where
  -- The part of `jack_process` that reads the capture port.
  unfoldable pub capture : Cycle D → JackThread D → Option (JackThread D)
  capture c s =
      if s.input_port
      then elim (overwrite (replicate s.buffer_size (of_nat 0)) c.captured) [
        | none ↦ none
        | some xs ↦
            let b : AudioBuffer D = record {
              buffer_start_time = c.now;
              jack_frame_time = c.frame_time;
              samples = xs;
            } in
            some (record s { audio_in_buffer = s.audio_in_buffer ++ b ∷ [] })
      ]
      else some s

  unfoldable pub jack_process :
      JackConfig D → ℕ → Cycle D → JackThread D → Option (JackThread D × List (Option (List D)))
  jack_process cfg nframes c s =
      let port : Output D → Option (Output D × Option (List D)) =
        if cfg.continuous then play_continuous nframes else play cfg s.empty_buffer c.now nframes in
      elim (capture c s) [
        | none ↦ none
        | some s' ↦ elim (play_ports port cfg.first_modem_index s'.output_port s'.outputs) [
          | none ↦ none
          | some (m, outs) ↦ some (record s' { outputs = m }, outs)
        ]
      ]

  -- With what the thread of modem 0 publishes.
  unfoldable pub jack_buffer_size_change : ℕ → ℕ → JackThread D → JackThread D × Option ℕ
  jack_buffer_size_change index nframes s =
      let block : AudioBuffer D = record {
        buffer_start_time = of_nat 0;
        jack_frame_time = 0;
        samples = replicate nframes (of_nat 0);
      } in
      (
        record s {
          buffer_size = nframes;
          empty_buffer = some (tagged (some block) Marker.none (negsuc 0));
        },
        if index == 0 then some nframes else none,
      )

  -- Cycles that come between two sections of the loop, which share the queue with it.
  unfoldable pub captures : List (Cycle D) → JackThread D → Option (JackThread D)
  captures [] s = some s
  captures (c ∷ cs) s = elim (capture c s) [ none ↦ none | some s' ↦ captures cs s' ]

  -- One call of `loop`, with what it publishes: cycles come while it waits, and between its sections.
  unfoldable pub loop :
      JackConfig D → List (Cycle D) → JackThread D → Option (JackThread D × List (AudioBuffer D))
  loop cfg cs s = elim (take_front cfg s) [
    | none ↦ elim (captures cs s) [ none ↦ none | some s' ↦ some (s', []) ]
    | some (s1, published) ↦ elim (captures cs s1) [
      | none ↦ none
      | some s2 ↦ elim published [
        | none ↦ some (s2, [])
        | some b ↦ elim (pop_front s2) [ none ↦ none | some s3 ↦ some (s3, b ∷ []) ]
      ]
    ]
  ]

  unfoldable pub loops :
      JackConfig D
      → List (List (Cycle D))
      → JackThread D
      → Option (JackThread D × List (AudioBuffer D))
  loops cfg [] s = some (s, [])
  loops cfg (cs ∷ rest) s = elim (loop cfg cs s) [
    | none ↦ none
    | some (s', out) ↦ elim (loops cfg rest s') [
      | none ↦ none
      | some (s'', outs) ↦ some (s'', out ++ outs)
    ]
  ]
