-- ===== src/Core/Jack/Ports.antt =====
-- src/apps/netsim_core/jack_thread.h: each port returns, whatever is queued for it.
use netsim.Prelude.{
  ℕ, suc, ◌+◌, ◌≤◌, ◌≡◌, Bool, true, false, Bool-cases, inl, inr, refl, sym, List, [], ◌∷◌, Option,
  none, some, length, All, subst, ap, ◌==◌,
}
use netsim.Prelude.Int.{ℤ}
use netsim.Prelude.Maps.{Map, lookup, assign, lookup-assign, nat_key}
use netsim.Prelude.Floats.{Double}
use netsim.Core.Audio.{AudioBuffer, TaggedAudioBuffer, Marker, tagged}
use netsim.Core.Jack.{JackConfig, Output, play}
use netsim.Core.Jack.Stream.{samples, HasBlock}
use netsim.Core.Jack.Playback.{play-middle, play-start}
use netsim.Core.Jack.Thread.{output_at, play_ports}

-- The queues hold no null pointer.
abbrev pub HoldsBlocks {ℓ} : {D : Type ℓ} → Option (Output D) → Type 0
HoldsBlocks entry = elim entry [ none ↦ Unit | some o ↦ All HasBlock o.queue ]

abbrev pub IsFilled {ℓ} : {D : Type ℓ} → Map ℕ (Output D) → Type 0
IsFilled m = (i : ℕ) → HoldsBlocks (lookup i m)

pub HoldsBlocks-at {ℓ} :
    {D : Type ℓ} (m : Map ℕ (Output D)) (i : ℕ) → IsFilled m → All HasBlock (output_at m i).queue
HoldsBlocks-at {D} m i h = go (lookup i m) (h i)
  where
    go :
        (entry : Option (Output D))
        → HoldsBlocks entry
        → let o : Output D = elim entry [
          | none ↦ record { queue = []; index = 0; new_packet = false }
          | some o ↦ o
        ] in
          All HasBlock o.queue
    go none _ = tt
    go (some o) blocks = blocks

pub IsFilled-assign {ℓ} :
    {D : Type ℓ} (i : ℕ) (o : Output D) (m : Map ℕ (Output D))
    → IsFilled m
    → All HasBlock o.queue
    → IsFilled (assign i o m)
IsFilled-assign i o m h new j =
    subst HoldsBlocks (sym (lookup-assign i j o m))
      (elim (Bool-cases (i == j)) [ inl same ↦ rw same new | inr other ↦ rw other (h j) ])

module _ {ℓ} {D : Type ℓ} ⦃d : Double D⦄ where
  -- A port that returns and keeps its queue free of null pointers.
  abbrev pub Returns : (Output D → Option (Output D × Option (List D))) → Type ℓ
  Returns port =
      (o : Output D)
      → All HasBlock o.queue
      → (o' : Output D) × (out : Option (List D)) × (port o ≡ some (o', out))
        × All HasBlock o'.queue

  pub play-Returns :
      (cfg : JackConfig D) (e : TaggedAudioBuffer D) (now : D) (n : ℕ)
      → HasBlock e
      → n ≤ length (samples e)
      → Returns (play cfg (some e) now n)
  unfolding play
  play-Returns cfg e now n eh long o h = go o.queue o.index o.new_packet h
    where
      Goes : List (TaggedAudioBuffer D) → ℕ → Bool → Type ℓ
      Goes q index new =
          (o' : Output D) × (out : Option (List D)) × (play cfg (some e) now n
              (record { queue = q; index = index; new_packet = new })
            ≡ some (o', out))
          × All HasBlock o'.queue

      start :
          (b : Option (AudioBuffer D)) (m : Marker) (id : ℤ) (rest : List (TaggedAudioBuffer D))
          (index : ℕ)
          → HasBlock (tagged b m id)
          → All HasBlock rest
          → Goes (tagged b m id ∷ rest) index true
      start none m id rest index none_there blocks = absurd none_there
      start (some b) m id rest index has blocks =
          elim (play-start e eh cfg now n b m id rest index blocks long) [
            | inl (_, waits) ↦ (_, _, waits, (has, blocks))
            | inr (_, _, (o', plays, on, _)) ↦ (o', _, plays, on.0)
          ]

      go :
          (q : List (TaggedAudioBuffer D)) (index : ℕ) (new : Bool)
          → All HasBlock q
          → Goes q index new
      go [] index new h = (_, _, refl, tt)
      go (t ∷ rest) index false h =
          let (o', plays, on, _) = play-middle e eh cfg now n t rest index h long in
          (o', _, plays, on.0)
      go (t ∷ rest) index true h = start t.buffer t.marker t.packet_id rest index h.0 h.1

  connected :
      (port : Output D → Option (Output D × Option (List D))) (i : ℕ) (ports : List Bool)
      (m : Map ℕ (Output D)) (o : Output D) (out : Option (List D)) (m' : Map ℕ (Output D))
      (outs : List (Option (List D)))
      → port (output_at m i) ≡ some (o, out)
      → play_ports port (i + 1) ports (assign i o m) ≡ some (m', outs)
      → play_ports port i (true ∷ ports) m ≡ some (m', out ∷ outs)
  unfolding play_ports
  connected port i ports m o out m' outs one played = rw (play_ports, one) (rw played)

  pub play_ports-IsFilled :
      (port : Output D → Option (Output D × Option (List D)))
      → Returns port
      → (i : ℕ) (ports : List Bool) (m : Map ℕ (Output D)) → IsFilled m
      → (m' : Map ℕ (Output D)) × (outs : List (Option (List D))) × (play_ports port i ports m
          ≡ some (m', outs))
        × IsFilled m'
        × (length outs ≡ length ports)
  unfolding play_ports
  play_ports-IsFilled port back i [] m h = (m, [], refl, h, refl)
  play_ports-IsFilled port back i (false ∷ ports) m h =
      let (m', outs, played, filled, each) = play_ports-IsFilled port back (i + 1) ports m h in
      (m', none ∷ outs, rw played, filled, ap suc each)
  play_ports-IsFilled port back i (true ∷ ports) m h =
      let (o, out, one, blocks) = back (output_at m i) (HoldsBlocks-at m i h) in
      let (m', outs, played, filled, each) =
        play_ports-IsFilled port back (i + 1) ports (assign i o m)
          (IsFilled-assign i o m h blocks) in
      (m', out ∷ outs, connected port i ports m o out m' outs one played, filled, ap suc each)
