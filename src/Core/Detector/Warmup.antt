-- ===== src/Core/Detector/Warmup.antt =====
-- src/apps/netsim_core/detector.h: the prebuffer after `buffer_size_change`, which fills it with
-- null pointers.
use netsim.Prelude.{
  ℕ, zero, suc, ◌+◌, ◌-◌, ◌≤◌, ◌<◌, ◌≡◌, refl, sym, ap, ◌∙◌, subst, true, false, List, [], ◌∷◌,
  ◌++◌, Option, none, some, arith, length, length-append, drop, any, All,
}
use netsim.Prelude.Floats.{Double}
use netsim.Core.Audio.{AudioBuffer}
use netsim.Core.CircularBuffer.{CircularBuffer, push_bounded}
use netsim.Core.Detector.{Detector, flush, begin_packet, idle_in, busy_in, audio_in, run}
use netsim.Core.Detector.Silence.{DetectorConfig, loud}
use netsim.Core.Detector.Prebuffer.{Filled, All-drop}
use netsim.Core.Detector.Protocol.{IsReady, between, follow}

drop-nil {ℓ} : {A : Type ℓ} (n : ℕ) → drop {A = A} n [] ≡ []
drop-nil zero = refl
drop-nil (suc n) = refl

drop-drop {ℓ} : {A : Type ℓ} (n m : ℕ) (xs : List A) → drop n (drop m xs) ≡ drop (m + n) xs
drop-drop n zero xs = ap (λ k. drop k xs) (omega arith)
drop-drop zero (suc m) [] = sym (drop-nil (suc m + zero))
drop-drop (suc n) (suc m) [] = sym (drop-nil (suc m + suc n))
drop-drop n (suc m) (x ∷ xs) =
    drop-drop n m xs ∙ ap (λ k. drop k (x ∷ xs)) {x = suc (m + n)} {y = suc m + n} (omega arith)

length-drop {ℓ} : {A : Type ℓ} (n : ℕ) (xs : List A) → length (drop n xs) ≡ length xs - n
length-drop zero xs = omega arith
length-drop (suc n) [] = omega arith
length-drop (suc n) (x ∷ xs) = omega (arith, length-drop n xs)

All-drop_mono {ℓ κ} :
    {A : Type ℓ} (P : A → Type κ) (n m : ℕ) (xs : List A)
    → n ≤ m
    → All P (drop n xs)
    → All P (drop m xs)
All-drop_mono P zero m xs h all = All-drop P m xs all
All-drop_mono P (suc n) zero xs h all = absurd (omega arith)
All-drop_mono P (suc n) (suc m) [] h all = tt
All-drop_mono P (suc n) (suc m) (x ∷ xs) h all = All-drop_mono P n m xs (omega arith) all

All-drop_append {ℓ κ} :
    {A : Type ℓ} (P : A → Type κ) (n : ℕ) (xs : List A) (x : A)
    → All P (drop n xs)
    → P x
    → All P (drop n (xs ++ x ∷ []))
All-drop_append P zero [] x all p = (p, tt)
All-drop_append P zero (y ∷ ys) x all p = (all.0, All-drop_append P zero ys x all.1 p)
All-drop_append P (suc n) [] x all p = All-drop P n [] tt
All-drop_append P (suc n) (y ∷ ys) x all p = All-drop_append P n ys x all p

gone {ℓ} : {A : Type ℓ} (xs : List (Option A)) → All Filled (drop (length xs) xs)
gone [] = tt
gone (x ∷ xs) = gone xs

All-gone {ℓ} : {A : Type ℓ} (xs : List (Option A)) → All Filled (drop (length xs - 0) xs)
All-gone [] = tt
All-gone (x ∷ xs) =
    subst (λ k. All Filled (drop k (x ∷ xs))) {x = suc (length xs)} {y = suc (length xs) - 0}
      (omega arith) (gone xs)

-- The newest `m` elements are blocks.
abbrev NewestFilled {ℓ} : {A : Type ℓ} → ℕ → List (Option A) → Type 0
NewestFilled m xs = All Filled (drop (length xs - m) xs)

push-NewestFilled {ℓ} :
    {A : Type ℓ} (m n : ℕ) (x : A) (xs : List (Option A))
    → length xs ≤ n
    → NewestFilled m xs
    → NewestFilled (m + 1) (push_bounded n (some x) xs) × (length (push_bounded n (some x) xs) ≤ n)
push-NewestFilled {A} m n x xs fits h = (
  rw (drop-drop _ cut (xs ++ some x ∷ [])) (
      All-drop_mono Filled (length xs - m) _ (xs ++ some x ∷ []) (omega (arith, sizes, sizes'))
        (All-drop_append Filled (length xs - m) xs (some x) h tt)),
  omega (arith, sizes, sizes'),
)
  where
    cut : ℕ
    cut = length xs + 1 - n

    sizes : length (xs ++ some x ∷ []) ≡ length xs + 1
    sizes = length-append xs (some x ∷ [])

    sizes' : length (drop cut (xs ++ some x ∷ [])) ≡ length (xs ++ some x ∷ []) - cut
    sizes' = length-drop cut (xs ++ some x ∷ [])

module _ {ℓ} {D : Type ℓ} ⦃d : Double D⦄ (cb : CircularBuffer (Option (AudioBuffer D))) where
  open cb use {Buf, push_back, elements, capacity}

  -- No sample of the block reaches the threshold.
  abbrev pub IsQuiet : DetectorConfig D → AudioBuffer D → Type 0
  IsQuiet cfg buffer = any (loud cfg) buffer.samples ≡ false

  audio_in-quiet :
      (cfg : DetectorConfig D) (buffer : AudioBuffer D) (s : Detector D Buf)
      → cfg.continuous ≡ false
      → s.in_packet ≡ false
      → IsQuiet cfg buffer
      → audio_in cb cfg buffer s
        ≡ (record s { prebuffer = push_back (some buffer) s.prebuffer }, [])
  unfolding audio_in idle_in
  audio_in-quiet cfg buffer s discrete idle quiet = ground arith

  warm :
      (cfg : DetectorConfig D) (buffers : List (AudioBuffer D)) (s : Detector D Buf) (m : ℕ)
      → cfg.continuous ≡ false
      → s.in_packet ≡ false
      → 0 < capacity s.prebuffer
      → length (elements s.prebuffer) ≤ capacity s.prebuffer
      → All (IsQuiet cfg) buffers
      → NewestFilled m (elements s.prebuffer)
      → capacity s.prebuffer ≤ m + length buffers
      → IsReady cb (run cb cfg buffers s).0 × ((run cb cfg buffers s).1 ≡ [])
  unfolding run
  warm cfg [] s m discrete idle room fits quiet newest enough = (
    record {
      room = room;
      filled =
          subst (λ k. All Filled (drop k (elements s.prebuffer)))
            {x = length (elements s.prebuffer) - m} {y = 0} (omega arith) newest;
      numbered = λ e. cc;
      drained = λ e. cc;
    },
    refl,
  )
  warm cfg (buffer ∷ buffers) s m discrete idle room fits quiet newest enough =
      let s1 : Detector D Buf = record s { prebuffer = push_back (some buffer) s.prebuffer } in
      let (newest', fits') =
        push-NewestFilled m (capacity s.prebuffer) buffer (elements s.prebuffer) fits newest in
      let same = cb.capacity-push_back (some buffer) s.prebuffer in
      let pushed = cb.elements-push_back (some buffer) s.prebuffer in
      let e = audio_in-quiet cfg buffer s discrete idle quiet.0 in
      rw e (
        warm cfg buffers s1 (m + 1) discrete idle (rw same room) (rw (same, pushed) fits') quiet.1
          (rw pushed newest') (omega (arith, same)))

  -- In the discrete mode, from any state between packets whose prebuffer has room and is within its
  -- capacity (it may hold null pointers): as many quiet blocks as the capacity publish nothing, and
  -- leave a prebuffer with no null pointer, so that the next packet starts as it should.
  pub run_quiet-IsReady :
      (cfg : DetectorConfig D) (buffers : List (AudioBuffer D)) (s : Detector D Buf)
      → cfg.continuous ≡ false
      → s.in_packet ≡ false
      → 0 < capacity s.prebuffer
      → length (elements s.prebuffer) ≤ capacity s.prebuffer
      → All (IsQuiet cfg) buffers
      → capacity s.prebuffer ≤ length buffers
      → IsReady cb (run cb cfg buffers s).0 × ((run cb cfg buffers s).1 ≡ [])
  run_quiet-IsReady cfg buffers s discrete idle room fits quiet enough =
      warm cfg buffers s 0 discrete idle room fits quiet (All-gone (elements s.prebuffer))
        (omega arith)

  -- In the discrete mode, between packets: if a packet is heard while the place at the front of the
  -- prebuffer is still a null pointer, no start is published, though the detector is then in a
  -- packet; and a reader between packets cannot follow what the next block publishes.
  pub unfilled_start :
      (cfg : DetectorConfig D) (buffer next : AudioBuffer D) (s : Detector D Buf)
      (rest : List (Option (AudioBuffer D)))
      → cfg.continuous ≡ false
      → s.in_packet ≡ false
      → any (loud cfg) buffer.samples ≡ true
      → elements (push_back (some buffer) s.prebuffer) ≡ none ∷ rest
      → let (s1, out) = audio_in cb cfg buffer s in
        (out ≡ [])
        × (s1.in_packet ≡ true)
        × (follow (between s.global_packet_id) (audio_in cb cfg next s1).1 ≡ none)
  unfolding audio_in idle_in busy_in begin_packet flush follow
  unfilled_start cfg buffer next s rest discrete idle heard front = ground arith
