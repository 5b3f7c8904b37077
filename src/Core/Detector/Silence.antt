-- ===== src/Core/Detector/Silence.antt =====
-- src/apps/netsim_core/detector.h: the configuration and the two loops over one block's samples.
use netsim.Prelude.{
  ℕ, ◌+◌, ◌%◌, ◌^◌, ◌<◌, ◌≡◌, refl, ap, ◌∙◌, sym, ◌≢◌, ◌↔◌, Bool, true, false, ◌||◌, List, [], ◌∷◌,
  ◌++◌, arith, if◌then◌else◌, Bool-cases, inl, inr, any, length,
}
use netsim.Prelude.Int.{ℤ}
use netsim.Prelude.Floats.{Double, of_nat}

pub record DetectorConfig {ℓ} (D : Type ℓ) : Type ℓ where
  pub detection_threshold : D
  pub packet_end_silent_seconds : D
  pub packet_begin_prebuffer_seconds : D
  pub sampling_freq : ℤ
  pub continuous : Bool

module _ {ℓ} {D : Type ℓ} ⦃d : Double D⦄ (cfg : DetectorConfig D) where
  -- `std::abs(*it) >= cfg().detector().detection_threshold()`
  unfoldable pub loud : D → Bool
  loud sample = d.le cfg.detection_threshold (d.abs sample)

  unfoldable pub silent_long : ℕ → Bool
  silent_long frames =
      d.le (d.mul cfg.packet_end_silent_seconds (d.of_int cfg.sampling_freq)) (of_nat frames)

  -- The counter after one sample; it is an unsigned 32-bit integer.
  unfoldable pub count_frame : ℕ → D → ℕ
  unfolding loud
  count_frame frames sample = if loud sample then 0 else (frames + 1) % 2 ^ 32

  -- The counter after a block, and whether the packet ended in it.
  unfoldable pub scan : ℕ → List D → ℕ × Bool
  unfolding silent_long count_frame
  scan frames [] = (frames, false)
  scan frames (sample ∷ samples) =
      let frames' = count_frame frames sample in
      let rest = scan frames' samples in if silent_long frames' then (0, true) else rest

  -- The counter after all of a block.
  unfoldable frames_after : ℕ → List D → ℕ
  unfolding count_frame
  frames_after frames [] = frames
  frames_after frames (sample ∷ samples) = frames_after (count_frame frames sample) samples

  -- The samples behind the last loud one, if there is a loud one.
  unfoldable pub behind_loud : List D → List D
  behind_loud [] = []
  behind_loud (x ∷ xs) =
      let rest = behind_loud xs in if any loud xs then rest else if loud x then xs else x ∷ xs

  -- How many samples the silence has lasted at the end of `samples`, after `frames` before them: as an
  -- unsigned number of 32 bits.
  unfoldable pub silence : ℕ → List D → ℕ
  silence frames samples =
      (if any loud samples then length (behind_loud samples) else frames + length samples) % 2 ^ 32

  count_frame-lt : (frames : ℕ) (sample : D) → count_frame frames sample < 2 ^ 32
  unfolding count_frame
  count_frame-lt frames sample = ground arith

  silence_step :
      (any_loud first_loud : Bool) (frames : ℕ) (rest xs : List D) (x : D)
      → (if any_loud
            then length rest
            else (if first_loud then 0 else (frames + 1) % 2 ^ 32) + length xs)
          % 2 ^ 32
        ≡ (if first_loud || any_loud
            then length (if any_loud then rest else if first_loud then xs else x ∷ xs)
            else frames + length (x ∷ xs))
          % 2 ^ 32
  silence_step true true frames rest xs x = refl
  silence_step true false frames rest xs x = refl
  silence_step false true frames rest xs x = omega arith
  silence_step false false frames rest xs x = omega arith

  frames_after-silence :
      (frames : ℕ) (samples : List D)
      → frames < 2 ^ 32
      → frames_after frames samples ≡ silence frames samples
  unfolding frames_after silence behind_loud count_frame
  frames_after-silence frames [] l = ground arith
  frames_after-silence frames (x ∷ xs) l =
      frames_after-silence (count_frame frames x) xs (count_frame-lt frames x)
      ∙ silence_step (any loud xs) (loud x) frames (behind_loud xs) xs x

  -- Some sample of the block is the one at which the silence has lasted long enough.
  abbrev pub SilentWithin : ℕ → List D → Type ℓ
  SilentWithin frames samples =
      (before : List D) × (after : List D) × (samples ≡ before ++ after)
      × (before ≢ [])
      × (silent_long (silence frames before) ≡ true)

  -- The same by the counter.
  abbrev CountedWithin : ℕ → List D → Type ℓ
  CountedWithin frames samples =
      (before : List D) × (after : List D) × (samples ≡ before ++ after)
      × (before ≢ [])
      × (silent_long (frames_after frames before) ≡ true)

  scan-CountedWithin :
      (frames : ℕ) (samples : List D)
      → (scan frames samples).1 ≡ true
      → CountedWithin frames samples
  unfolding scan frames_after
  scan-CountedWithin frames [] h = cc
  scan-CountedWithin frames (x ∷ xs) h = elim (Bool-cases (silent_long (count_frame frames x))) [
    | inl long ↦ (x ∷ [], xs, refl, (λ e. cc), long)
    | inr short ↦
        let (before, after, e, ne, long) =
          scan-CountedWithin (count_frame frames x) xs (rw (short) at h) in
        (x ∷ before, after, ap (◌∷◌ x) e, (λ e'. cc), long)
  ]

  CountedWithin-scan :
      (frames : ℕ) (samples before after : List D)
      → samples ≡ before ++ after
      → before ≢ []
      → silent_long (frames_after frames before) ≡ true
      → (scan frames samples).1 ≡ true
  unfolding scan frames_after
  CountedWithin-scan frames samples [] after e ne long = absurd (ne refl)
  CountedWithin-scan frames [] (y ∷ ys) after e ne long = cc
  CountedWithin-scan frames (x ∷ xs) (y ∷ []) after e ne long = let e' : x ≡ y = cc in rw (e', long)
  CountedWithin-scan frames (x ∷ xs) (y ∷ z ∷ zs) after e ne long =
      let e' : x ≡ y = cc in
      elim (Bool-cases (silent_long (count_frame frames x))) [
        | inl now ↦ rw now
        | inr later ↦ rw later (
            CountedWithin-scan (count_frame frames x) xs (z ∷ zs) after (cc) (λ e''. cc)
              (rw e' long))
      ]

  scan_ended : (f : ℕ) (xs : List D) → (scan f xs).1 ≡ true → (scan f xs).0 ≡ 0
  unfolding scan
  scan_ended f [] h = cc
  scan_ended f (x ∷ xs) h = ground (arith, scan_ended (count_frame f x) xs)

  scan_going : (f : ℕ) (xs : List D) → (scan f xs).1 ≡ false → (scan f xs).0 ≡ frames_after f xs
  unfolding scan frames_after
  scan_going f [] h = refl
  scan_going f (x ∷ xs) h = ground (arith, scan_going (count_frame f x) xs)

  -- A packet ends in a block exactly if at one of its samples the silence has lasted long enough. It has
  -- lasted since the last loud sample of the block, or else for as long as the count says that it had
  -- before the block and since. The count is then 0, and else how long the silence has lasted at the
  -- end of the block. Counts are below 2 ^ 32 and wrap around there.
  pub scan_lem :
      (frames : ℕ) (samples : List D)
      → frames < 2 ^ 32
      → (((scan frames samples).1 ≡ true) ↔ SilentWithin frames samples)
        × ((scan frames samples).1 ≡ true → (scan frames samples).0 ≡ 0)
        × ((scan frames samples).1 ≡ false → (scan frames samples).0 ≡ silence frames samples)
  scan_lem frames samples l = (
    (
      λ ended.
          let (before, after, e, ne, long) = scan-CountedWithin frames samples ended in
          (
            before,
            after,
            e,
            ne,
            ap silent_long (sym (frames_after-silence frames before l)) ∙ long,
          ),
      λ (before, after, e, ne, long).
          CountedWithin-scan frames samples before after e ne
            (ap silent_long (frames_after-silence frames before l) ∙ long),
    ),
    scan_ended frames samples,
    λ going. scan_going frames samples going ∙ frames_after-silence frames samples l,
  )

  pub scan-lt : (frames : ℕ) (samples : List D) → frames < 2 ^ 32 → (scan frames samples).0 < 2 ^ 32
  unfolding scan
  scan-lt frames [] h = h
  scan-lt frames (x ∷ xs) h =
      ground (arith, scan-lt (count_frame frames x) xs, count_frame-lt frames x)
