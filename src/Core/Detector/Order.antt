-- ===== src/Core/Detector/Order.antt =====
-- src/apps/netsim_core/detector.h: which blocks a detector publishes in the discrete mode.
use mathlib.Core.List.{Sublist}
use mathlib.Core.List.Sublist
use netsim.Prelude.{
  ℕ, zero, suc, ◌≡◌, refl, subst, ap, ◌≢◌, true, false, List, [], ◌∷◌, ◌++◌, map, Option, some,
  append-nil, append_assoc, arith, any, drop, Bool-cases, inl, inr,
}
use netsim.Prelude.Floats.{Double}
use netsim.Prelude.Int.{ℤ}
use netsim.Core.Audio.{AudioBuffer, TaggedAudioBuffer, Marker, tagged, int_succ}
use netsim.Core.CircularBuffer.{CircularBuffer}
use netsim.Core.Detector.{Detector, begin_packet, idle_in, busy_in, audio_in, run}
use netsim.Core.Detector.Silence.{DetectorConfig, loud}
use netsim.Core.Detector.Prebuffer.{opening, flush-opening}
use netsim.Core.Detector.Protocol.{IsReady, audio_in-IsReady, push-IsReady, push-ne}

drop-sublist {ℓ} : {A : Type ℓ} (n : ℕ) (xs : List A) → Sublist (drop n xs) xs
drop-sublist zero xs = Sublist.refl xs
drop-sublist (suc n) [] = Sublist.refl []
drop-sublist (suc n) (x ∷ xs) = Sublist.cons x (drop-sublist n xs)

chain-sublist {ℓ} :
    {A : Type ℓ} (us bs waiting later before : List A) (x : A) (xs : List A)
    → Sublist (us ++ waiting) (before ++ x ∷ [])
    → Sublist (bs ++ later) (waiting ++ xs)
    → Sublist ((us ++ bs) ++ later) (before ++ x ∷ xs)
chain-sublist us bs waiting later before x xs h k = rw (append_assoc us bs later) (
    Sublist.trans (Sublist.append (Sublist.refl us) k) (
      rw (← append_assoc us waiting xs) (
        subst (λ l. Sublist ((us ++ waiting) ++ xs) l) (append_assoc before (x ∷ []) xs)
          (Sublist.append h (Sublist.refl xs)))))

-- The blocks of messages.
unfoldable pub blocks {ℓ} :
    {D : Type ℓ} → List (TaggedAudioBuffer D) → List (Option (AudioBuffer D))
blocks [] = []
blocks (t ∷ ts) = t.buffer ∷ blocks ts

pub blocks-append {ℓ} :
    {D : Type ℓ} (ts us : List (TaggedAudioBuffer D)) → blocks (ts ++ us) ≡ blocks ts ++ blocks us
unfolding blocks
blocks-append [] us = refl
blocks-append (t ∷ ts) us = ap (◌∷◌ t.buffer) (blocks-append ts us)

blocks-unmarked {ℓ} :
    {D : Type ℓ} (id : ℤ) (xs : List (Option (AudioBuffer D)))
    → blocks (map (λ y. tagged y Marker.none id) xs) ≡ xs
unfolding blocks
blocks-unmarked id [] = refl
blocks-unmarked id (x ∷ xs) = ap (◌∷◌ x) (blocks-unmarked id xs)

blocks-opening {ℓ} :
    {D : Type ℓ} (id : ℤ) (xs : List (Option (AudioBuffer D))) → blocks (opening id xs) ≡ xs
unfolding blocks opening
blocks-opening id [] = refl
blocks-opening id (x ∷ xs) = ap (◌∷◌ x) (blocks-unmarked id xs)

module _ {ℓ} {D : Type ℓ} ⦃d : Double D⦄ (cb : CircularBuffer (Option (AudioBuffer D))) where
  open cb use {Buf, push_back, elements, capacity}

  -- What was published, and then what waits in the prebuffer.
  abbrev pub seen : Detector D Buf × List (TaggedAudioBuffer D) → List (Option (AudioBuffer D))
  seen (s, out) = blocks out ++ elements s.prebuffer

  push_back-sublist :
      (x : Option (AudioBuffer D)) (b : Buf)
      → Sublist (elements (push_back x b)) (elements b ++ x ∷ [])
  push_back-sublist x b = rw (cb.elements-push_back x b) (drop-sublist _ _)

  begin_packet-seen :
      (cfg : DetectorConfig D) (buffer : AudioBuffer D) (s : Detector D Buf)
      → cfg.continuous ≡ false
      → IsReady cb s
      → elements s.prebuffer ≢ []
      → seen (begin_packet cb cfg buffer s) ≡ elements s.prebuffer
  unfolding begin_packet
  begin_packet-seen cfg buffer s discrete r ne =
      let id = s.global_packet_id in
      let s' : Detector D Buf = record s {
        in_packet = true;
        in_packet_id = id;
        global_packet_id = int_succ id;
        in_packet_start_time = buffer.buffer_start_time;
      } in
      let (b, e, left, same) = flush-opening cb s' r.filled ne in
      rw (discrete, e, left, blocks-opening id (elements s.prebuffer)) (append-nil _)

  audio_in-seen :
      (cfg : DetectorConfig D) (buffer : AudioBuffer D) (s : Detector D Buf)
      → cfg.continuous ≡ false
      → IsReady cb s
      → Sublist (seen (audio_in cb cfg buffer s)) (elements s.prebuffer ++ some buffer ∷ [])
  unfolding audio_in busy_in idle_in blocks
  audio_in-seen cfg buffer s discrete r = elim (Bool-cases s.in_packet) [
    | inl busy ↦
        let e : seen (audio_in cb cfg buffer s) ≡ some buffer ∷ [] =
          ground (arith, r.drained busy) in
        rw (e, r.drained busy) (Sublist.refl _)
    | inr idle ↦
        let s1 : Detector D Buf = record s { prebuffer = push_back (some buffer) s.prebuffer } in
        let pushed = push_back-sublist (some buffer) s.prebuffer in
        elim (Bool-cases (any (loud cfg) buffer.samples)) [
          | inl heard ↦
              let e : audio_in cb cfg buffer s ≡ begin_packet cb cfg buffer s1 = ground arith in
              let r1 = push-IsReady cb buffer s r idle in
              rw (e, begin_packet-seen cfg buffer s1 discrete r1 (push-ne cb buffer s r)) pushed
          | inr quiet ↦ let e : audio_in cb cfg buffer s ≡ (s1, []) = ground arith in rw e pushed
        ]
  ]

  -- In the discrete mode, from a state whose prebuffer has room and holds no null pointer: the
  -- blocks published, then those that still wait in the prebuffer, are among the blocks that waited
  -- there before and those that arrived since, in the order of arrival and none of them twice.
  pub run-sublist :
      (cfg : DetectorConfig D) (buffers : List (AudioBuffer D)) (s : Detector D Buf)
      → cfg.continuous ≡ false
      → IsReady cb s
      → let (s', out) = run cb cfg buffers s in
        Sublist (blocks out ++ elements s'.prebuffer) (elements s.prebuffer ++ map some buffers)
  unfolding run blocks
  run-sublist cfg [] s discrete r = rw (append-nil (elements s.prebuffer)) (Sublist.refl _)
  run-sublist cfg (buffer ∷ buffers) s discrete r =
      let (s1, out) = audio_in cb cfg buffer s in
      let (s2, rest) = run cb cfg buffers s1 in
      let r1 = audio_in-IsReady cb cfg buffer s discrete r in
      rw (blocks-append out rest) (
        chain-sublist (blocks out) _ _ _ (elements s.prebuffer) (some buffer) _
          (audio_in-seen cfg buffer s discrete r) (run-sublist cfg buffers s1 discrete r1))
