-- ===== src/Core/Detector/Protocol.antt =====
-- src/apps/netsim_core/detector.h: the order of markers and packet ids that a detector publishes in
-- the discrete mode.
use netsim.Prelude.{
  ◌<◌, ◌≡◌, refl, sym, subst, ◌∙◌, ◌≢◌, true, false, List, [], ◌∷◌, ◌++◌, map, Option, none, some,
  arith, if◌then◌else◌, any, All, All-append, Bool-cases, Option-cases, inl, inr,
}
use netsim.Prelude.Int.{ℤ, eqb_ℤ, eqb_ℤ_iff}
use netsim.Prelude.Floats.{Double}
use netsim.Core.Audio.{AudioBuffer, TaggedAudioBuffer, Marker, tagged, int_succ}
use netsim.Core.CircularBuffer.{CircularBuffer}
use netsim.Core.Detector.{Detector, begin_packet, idle_in, busy_in, audio_in, run}
use netsim.Core.Detector.Silence.{DetectorConfig, loud}
use netsim.Core.Detector.Prebuffer.{Filled, All-drop, push_bounded_ne, opening, flush-opening}

-- A reader of the stream is between packets, where it knows the id of the next one, or inside one.
pub data Phase : Type 0 where
  between inside : ℤ → Phase

-- What a reader may meet: a start with the next id, then unmarked and middle blocks of that packet,
-- then its end. Every message carries a block.
abbrev pub on_marker : ℤ → Marker → Option Phase
on_marker id Marker.none = some (inside id)
on_marker id Marker.start = none
on_marker id Marker.end = some (between (int_succ id))
on_marker id Marker.middle = some (inside id)

abbrev pub opens : ℤ → Marker → Option Phase
opens id Marker.start = some (inside id)
opens id _ = none

unfoldable pub advance {ℓ} : {D : Type ℓ} → Phase → TaggedAudioBuffer D → Option Phase
advance (between id) t = elim t.buffer [
  | none ↦ none
  | some _ ↦ if eqb_ℤ t.packet_id id then opens id t.marker else none
]
advance (inside id) t = elim t.buffer [
  | none ↦ none
  | some _ ↦ if eqb_ℤ t.packet_id id then on_marker id t.marker else none
]

unfoldable pub follow {ℓ} : {D : Type ℓ} → Phase → List (TaggedAudioBuffer D) → Option Phase
unfolding advance
follow p [] = some p
follow p (t ∷ ts) = elim (advance p t) [ none ↦ none | some q ↦ follow q ts ]

follow-append {ℓ} :
    {D : Type ℓ} (p q : Phase) (ts us : List (TaggedAudioBuffer D))
    → follow p ts ≡ some q
    → follow p (ts ++ us) ≡ follow q us
unfolding follow
follow-append p q [] us h = ground arith
follow-append p q (t ∷ ts) us h = elim (Option-cases (advance p t)) [
  | inl e ↦ ground arith
  | inr (r, e) ↦ ground (arith, follow-append r q ts us)
]

eqb_ℤ_refl : (a : ℤ) → eqb_ℤ a a ≡ true
eqb_ℤ_refl a = (eqb_ℤ_iff a a).1 refl

follow-unmarked {ℓ} :
    {D : Type ℓ} (id : ℤ) (xs : List (Option (AudioBuffer D)))
    → All Filled xs
    → follow (inside id) (map (λ y. tagged y Marker.none id) xs) ≡ some (inside id)
unfolding follow
follow-unmarked id [] h = refl
follow-unmarked id (none ∷ xs) h = absurd h.0
follow-unmarked id (some x ∷ xs) h = rw (eqb_ℤ_refl id, follow) (follow-unmarked id xs h.1)

follow-opening {ℓ} :
    {D : Type ℓ} (id : ℤ) (xs : List (Option (AudioBuffer D)))
    → All Filled xs
    → xs ≢ []
    → follow (between id) (opening id xs) ≡ some (inside id)
unfolding follow opening
follow-opening id [] h ne = absurd (ne refl)
follow-opening id (none ∷ xs) h ne = absurd h.0
follow-opening id (some x ∷ xs) h ne = rw (eqb_ℤ_refl id, follow) (follow-unmarked id xs h.1)

module _ {ℓ} {D : Type ℓ} ⦃d : Double D⦄ (cb : CircularBuffer (Option (AudioBuffer D))) where
  open cb use {Buf, push_back, elements, capacity}

  abbrev pub phase : Detector D Buf → Phase
  phase s = if s.in_packet then inside s.in_packet_id else between s.global_packet_id

  -- The prebuffer has room and holds no null pointer; in a packet it is empty, and the counter is
  -- one ahead of the packet's id.
  pub record IsReady (s : Detector D Buf) : Type ℓ where
    pub room : 0 < capacity s.prebuffer
    pub filled : All Filled (elements s.prebuffer)
    pub numbered : s.in_packet ≡ true → s.global_packet_id ≡ int_succ s.in_packet_id
    pub drained : s.in_packet ≡ true → elements s.prebuffer ≡ []

  -- A step that the reader can follow.
  abbrev Follows : Detector D Buf → Detector D Buf × List (TaggedAudioBuffer D) → Type ℓ
  Follows s (s', out) = (follow (phase s) out ≡ some (phase s')) × IsReady s'

  -- A block that arrives between packets goes into the prebuffer.
  pub push-IsReady :
      (buffer : AudioBuffer D) (s : Detector D Buf)
      → IsReady s
      → s.in_packet ≡ false
      → IsReady (record s { prebuffer = push_back (some buffer) s.prebuffer })
  push-IsReady buffer s r idle = record {
    room = rw (cb.capacity-push_back (some buffer) s.prebuffer) r.room;
    filled = rw (cb.elements-push_back (some buffer) s.prebuffer) (
        All-drop Filled _ _
          (All-append Filled (elements s.prebuffer) (some buffer ∷ []) r.filled (tt, tt)));
    numbered = λ e. cc;
    drained = λ e. cc;
  }

  pub push-ne :
      (buffer : AudioBuffer D) (s : Detector D Buf)
      → IsReady s
      → elements (push_back (some buffer) s.prebuffer) ≢ []
  push-ne buffer s r =
      rw (cb.elements-push_back (some buffer) s.prebuffer)
        (push_bounded_ne (capacity s.prebuffer) (some buffer) (elements s.prebuffer) r.room)

  begin_packet-Follows :
      (cfg : DetectorConfig D) (buffer : AudioBuffer D) (s : Detector D Buf)
      → cfg.continuous ≡ false
      → s.in_packet ≡ false
      → IsReady s
      → elements s.prebuffer ≢ []
      → Follows s (begin_packet cb cfg buffer s)
  unfolding begin_packet
  begin_packet-Follows cfg buffer s discrete idle r ne =
      let id = s.global_packet_id in
      let s' : Detector D Buf = record s {
        in_packet = true;
        in_packet_id = id;
        global_packet_id = int_succ id;
        in_packet_start_time = buffer.buffer_start_time;
      } in
      let (b, e, left, same) = flush-opening cb s' r.filled ne in
      rw (discrete, idle, e)
        (
          follow-opening id (elements s.prebuffer) r.filled ne,
          record {
            room = rw same r.room;
            filled = rw left tt;
            numbered = λ _. refl;
            drained = λ _. left;
          },
        )

  idle_in-Follows :
      (cfg : DetectorConfig D) (buffer : AudioBuffer D) (s : Detector D Buf)
      → cfg.continuous ≡ false
      → s.in_packet ≡ false
      → IsReady s
      → Follows s (idle_in cb cfg buffer s)
  unfolding idle_in follow
  idle_in-Follows cfg buffer s discrete idle r =
      let s1 : Detector D Buf = record s { prebuffer = push_back (some buffer) s.prebuffer } in
      let r1 = push-IsReady buffer s r idle in
      elim (Bool-cases (any (loud cfg) buffer.samples)) [
        | inl heard ↦
            let e : idle_in cb cfg buffer s ≡ begin_packet cb cfg buffer s1 = ground arith in
            subst (Follows s) (sym e)
              (begin_packet-Follows cfg buffer s1 discrete idle r1 (push-ne buffer s r))
        | inr quiet ↦
            let e : idle_in cb cfg buffer s ≡ (s1, []) = ground arith in
            subst (Follows s) (sym e) (refl, r1)
      ]

  busy_in-Follows :
      (cfg : DetectorConfig D) (buffer : AudioBuffer D) (s : Detector D Buf)
      → cfg.continuous ≡ false
      → s.in_packet ≡ true
      → IsReady s
      → Follows s (busy_in cb cfg buffer s)
  unfolding busy_in follow
  busy_in-Follows cfg buffer s discrete busy r =
      ground (arith, eqb_ℤ_refl s.in_packet_id, r.numbered busy, r.drained busy)

  audio_in-Follows :
      (cfg : DetectorConfig D) (buffer : AudioBuffer D) (s : Detector D Buf)
      → cfg.continuous ≡ false
      → IsReady s
      → Follows s (audio_in cb cfg buffer s)
  unfolding audio_in
  audio_in-Follows cfg buffer s discrete r = elim (Bool-cases s.in_packet) [
    | inl busy ↦
        let e : audio_in cb cfg buffer s ≡ busy_in cb cfg buffer s = rw (busy, audio_in) in
        subst (Follows s) (sym e) (busy_in-Follows cfg buffer s discrete busy r)
    | inr idle ↦
        let e : audio_in cb cfg buffer s ≡ idle_in cb cfg buffer s = rw (idle, audio_in) in
        subst (Follows s) (sym e) (idle_in-Follows cfg buffer s discrete idle r)
  ]

  pub audio_in-IsReady :
      (cfg : DetectorConfig D) (buffer : AudioBuffer D) (s : Detector D Buf)
      → cfg.continuous ≡ false
      → IsReady s
      → IsReady (audio_in cb cfg buffer s).0
  audio_in-IsReady cfg buffer s discrete r = (audio_in-Follows cfg buffer s discrete r).1

  -- In the discrete mode, from a state whose prebuffer has room and holds no null pointer, whatever
  -- blocks arrive: what the detector publishes is a sequence of packets, each a start, unmarked and
  -- middle blocks, and an end, under one id, with ids that count up; only the last may lack its
  -- end, exactly if the detector is still in a packet. No null pointer is published, and the state
  -- reached is again such a state.
  pub run-follow :
      (cfg : DetectorConfig D) (buffers : List (AudioBuffer D)) (s : Detector D Buf)
      → cfg.continuous ≡ false
      → IsReady s
      → let (s', out) = run cb cfg buffers s in
        (follow (phase s) out ≡ some (phase s')) × IsReady s'
  unfolding run follow
  run-follow cfg [] s discrete r = (refl, r)
  run-follow cfg (buffer ∷ buffers) s discrete r =
      let (s1, out) = audio_in cb cfg buffer s in
      let (step, r1) = audio_in-Follows cfg buffer s discrete r in
      let (rest, r2) = run-follow cfg buffers s1 discrete r1 in
      (follow-append (phase s) (phase s1) out (run cb cfg buffers s1).1 step ∙ rest, r2)
