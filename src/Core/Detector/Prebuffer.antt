-- ===== src/Core/Detector/Prebuffer.antt =====
-- src/apps/netsim_core/detector.h: what the prebuffer holds, and what the start of a packet
-- publishes from it.
use netsim.Prelude.{
  ℕ, zero, suc, ◌+◌, ◌-◌, ◌≤◌, ◌<◌, ◌≡◌, refl, ap, ◌∙◌, ◌≢◌, List, [], ◌∷◌, ◌++◌, map, Option, none,
  some, arith, length, drop, All,
}
use netsim.Prelude.Int.{ℤ}
use netsim.Prelude.Floats.{Double}
use netsim.Core.Audio.{AudioBuffer, TaggedAudioBuffer, Marker, tagged}
use netsim.Core.CircularBuffer.{CircularBuffer, push_bounded}
use netsim.Core.Detector.{Detector, drain, flush}

-- The pointer is not null.
abbrev pub Filled {ℓ} : {A : Type ℓ} → Option A → Type 0
Filled none = ⊥
Filled (some _) = Unit

pub All-drop {ℓ κ} :
    {A : Type ℓ} (P : A → Type κ) (n : ℕ) (xs : List A) → All P xs → All P (drop n xs)
All-drop P zero xs h = h
All-drop P (suc n) [] h = tt
All-drop P (suc n) (x ∷ xs) h = All-drop P n xs h.1

drop-append_ne {ℓ} :
    {A : Type ℓ} (n : ℕ) (xs : List A) (x : A) → n ≤ length xs → drop n (xs ++ x ∷ []) ≢ []
drop-append_ne zero [] x h e = cc
drop-append_ne zero (y ∷ ys) x h e = cc
drop-append_ne (suc n) [] x h e = absurd (omega arith)
drop-append_ne (suc n) (y ∷ ys) x h e = drop-append_ne n ys x (omega arith) e

-- A buffer with room is not empty after a push.
pub push_bounded_ne {ℓ} :
    {A : Type ℓ} (n : ℕ) (x : A) (xs : List A) → 0 < n → push_bounded n x xs ≢ []
push_bounded_ne n x xs h = drop-append_ne (length xs + 1 - n) xs x (omega arith)

-- The messages that a packet starts with: the first is marked.
unfoldable pub opening {ℓ} :
    {D : Type ℓ} → ℤ → List (Option (AudioBuffer D)) → List (TaggedAudioBuffer D)
opening id [] = []
opening id (x ∷ xs) = tagged x Marker.start id ∷ map (λ y. tagged y Marker.none id) xs

module _ {ℓ} {D : Type ℓ} ⦃d : Double D⦄ (cb : CircularBuffer (Option (AudioBuffer D))) where
  open cb use {Buf, push_back, pop_front, elements, capacity}

  -- The loop runs until the buffer is empty, and publishes each element once, in order.
  pub drain_lem :
      (xs : List (Option (AudioBuffer D))) (id : ℤ) (b : Buf)
      → elements b ≡ xs
      → ((drain cb (length xs) id b).0 ≡ map (λ y. tagged y Marker.none id) xs)
        × (elements (drain cb (length xs) id b).1 ≡ [])
        × (capacity (drain cb (length xs) id b).1 ≡ capacity b)
  unfolding drain
  drain_lem [] id b e = (refl, e, refl)
  drain_lem (x ∷ xs) id b e =
      let (out, left, room) = drain_lem xs id (pop_front b) (cb.elements-pop_front x xs b e) in
      rw (e, drain)
        (ap (◌∷◌ (tagged x Marker.none id)) out, left, room ∙ cb.capacity-pop_front x xs b e)

  pub flush-opening :
      (s : Detector D Buf)
      → All Filled (elements s.prebuffer)
      → elements s.prebuffer ≢ []
      → (b : Buf) × (flush cb s
          ≡ (record s { prebuffer = b }, opening s.in_packet_id (elements s.prebuffer)))
        × (elements b ≡ [])
        × (capacity b ≡ capacity s.prebuffer)
  unfolding flush opening
  flush-opening s filled ne = go (elements s.prebuffer) refl
    where
      go :
          (xs : List (Option (AudioBuffer D)))
          → elements s.prebuffer ≡ xs
          → (b : Buf) × (flush cb s
              ≡ (record s { prebuffer = b }, opening s.in_packet_id (elements s.prebuffer)))
            × (elements b ≡ [])
            × (capacity b ≡ capacity s.prebuffer)
      go [] e = absurd (ne e)
      go (none ∷ rest) e = absurd ((rw e at filled).0)
      go (some x ∷ rest) e =
          let b = pop_front s.prebuffer in
          let (out, left, room) =
            drain_lem rest s.in_packet_id b (cb.elements-pop_front (some x) rest s.prebuffer e) in
          (
            (drain cb (length rest) s.in_packet_id b).1,
            rw (e, flush) (rw out),
            left,
            room ∙ cb.capacity-pop_front (some x) rest s.prebuffer e,
          )
