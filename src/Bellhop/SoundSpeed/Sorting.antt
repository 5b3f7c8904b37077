-- ===== src/Bellhop/SoundSpeed/Sorting.antt =====
-- src/apps/iBellhop/iBellhop.cpp, handle_ssp_update: what is known of `std::sort`, and a stand-in for it.
use netsim.Prelude.{
  ◌≡◌, sym, subst, inl, inr, Bool-cases, true, false, List, [], ◌∷◌, if◌then◌else◌, if-true,
  if-false, All, All-weaken, arith,
}
use netsim.Prelude.Floats.{Double, Ranked}
use netsim.Acoustics.{SspSample}
use netsim.Bellhop.{Libraries}

-- The second list is the first one in some order; not truncated, so that any type can be reached from
-- it.
pub data Shuffle {ℓ} {A : Type ℓ} : List A → List A → Type ℓ where
  nil : Shuffle [] []
  cons : {a : A} {xs ys : List A} → Shuffle xs ys → Shuffle (a ∷ xs) (a ∷ ys)
  swap : {a b : A} {xs : List A} → Shuffle (a ∷ b ∷ xs) (b ∷ a ∷ xs)
  trans : {xs ys zs : List A} → Shuffle xs ys → Shuffle ys zs → Shuffle xs zs

unchanged {ℓ} : {A : Type ℓ} (xs : List A) → Shuffle xs xs
unchanged [] = Shuffle.nil
unchanged (x ∷ xs) = Shuffle.cons (unchanged xs)

module _ {ℓ} {D : Type ℓ} ⦃d : Double D⦄ where
  abbrev pub NoneBelow : D → List (SspSample D) → Type 0
  NoneBelow z samples = All (λ t. d.lt t.depth z ≡ false) samples

  abbrev pub IsSorted : List (SspSample D) → Type 0
  IsSorted [] = Unit
  IsSorted (s ∷ samples) = NoneBelow s.depth samples × IsSorted samples

  -- As documented: the result is sorted and has the same samples, in whatever order those of equal depth
  -- are.
  abbrev pub Sorts : Libraries D → Type ℓ
  Sorts lib =
      (samples : List (SspSample D))
      → IsSorted (lib.sort_samples samples) × Shuffle samples (lib.sort_samples samples)

  -- Insertion sort.
  unfoldable pub insert_sample : SspSample D → List (SspSample D) → List (SspSample D)
  insert_sample s [] = s ∷ []
  insert_sample s (t ∷ samples) =
      let rest = insert_sample s samples in
      if d.lt t.depth s.depth then t ∷ rest else s ∷ t ∷ samples

  unfoldable pub insertion_sort : List (SspSample D) → List (SspSample D)
  insertion_sort [] = []
  insertion_sort (s ∷ samples) = insert_sample s (insertion_sort samples)

  insert_sample-Shuffle :
      (s : SspSample D) (samples : List (SspSample D))
      → Shuffle (s ∷ samples) (insert_sample s samples)
  unfolding insert_sample
  insert_sample-Shuffle s [] = unchanged (s ∷ [])
  insert_sample-Shuffle s (t ∷ samples) =
      elim (d.lt t.depth s.depth)
        as (λ b.
          Shuffle (s ∷ t ∷ samples) (if b then t ∷ insert_sample s samples else s ∷ t ∷ samples)) [
            | true ↦ Shuffle.trans Shuffle.swap (Shuffle.cons (insert_sample-Shuffle s samples))
            | false ↦ unchanged (s ∷ t ∷ samples)
          ]

  insertion_sort-Shuffle : (samples : List (SspSample D)) → Shuffle samples (insertion_sort samples)
  unfolding insertion_sort
  insertion_sort-Shuffle [] = Shuffle.nil
  insertion_sort-Shuffle (s ∷ samples) =
      Shuffle.trans (Shuffle.cons (insertion_sort-Shuffle samples))
        (insert_sample-Shuffle s (insertion_sort samples))

  module _ (r : Ranked d) where
    open r use {lt_rank}

    not_below : (z w v : D) → d.lt w z ≡ false → d.lt v w ≡ false → d.lt v z ≡ false
    not_below z w v h h' = ground (arith, lt_rank w z, lt_rank v w, lt_rank v z)

    not_above : (z w : D) → d.lt z w ≡ true → d.lt w z ≡ false
    not_above z w h = ground (arith, lt_rank z w, lt_rank w z)

    NoneBelow-insert_sample :
        (z : D) (s : SspSample D) (samples : List (SspSample D))
        → d.lt s.depth z ≡ false
        → NoneBelow z samples
        → NoneBelow z (insert_sample s samples)
    unfolding insert_sample
    NoneBelow-insert_sample z s [] h hs = (h, tt)
    NoneBelow-insert_sample z s (t ∷ samples) h (ht, hs) =
        elim (d.lt t.depth s.depth)
          as (λ b. NoneBelow z (if b then t ∷ insert_sample s samples else s ∷ t ∷ samples)) [
            | true ↦ (ht, NoneBelow-insert_sample z s samples h hs)
            | false ↦ (h, (ht, hs))
          ]

    insert_sample-IsSorted :
        (s : SspSample D) (samples : List (SspSample D))
        → IsSorted samples
        → IsSorted (insert_sample s samples)
    unfolding insert_sample
    insert_sample-IsSorted s [] h = (tt, tt)
    insert_sample-IsSorted s (t ∷ samples) (ht, hs) = elim (Bool-cases (d.lt t.depth s.depth)) [
      | inl e ↦ subst IsSorted (sym (if-true (d.lt t.depth s.depth) _ (s ∷ t ∷ samples) e)) (
        NoneBelow-insert_sample t.depth s samples (not_above t.depth s.depth e) ht,
        insert_sample-IsSorted s samples hs,
      )
      | inr e ↦
          subst IsSorted (sym (if-false (d.lt t.depth s.depth) (t ∷ insert_sample s samples) _ e))
            ((e, All-weaken (λ u. not_below s.depth t.depth u.depth e) samples ht), (ht, hs))
    ]

    insertion_sort-IsSorted : (samples : List (SspSample D)) → IsSorted (insertion_sort samples)
    unfolding insertion_sort
    insertion_sort-IsSorted [] = tt
    insertion_sort-IsSorted (s ∷ samples) =
        insert_sample-IsSorted s (insertion_sort samples) (insertion_sort-IsSorted samples)

    pub insertion_sort-Sorts :
        (samples : List (SspSample D))
        → IsSorted (insertion_sort samples) × Shuffle samples (insertion_sort samples)
    insertion_sort-Sorts samples = (insertion_sort-IsSorted samples, insertion_sort-Shuffle samples)
