-- ===== src/Prelude/Multimaps.antt =====
-- `std::multimap` with integer keys: a list of entries in the order of their keys, in which equal
-- keys stand in the order of their insertion.
use mathlib.Core.Path.{◌≡◌, refl, ap, ◌∙◌}
use mathlib.Core.Logic.{inl, inr}
use mathlib.Core.Bool.{true, false}
use mathlib.Core.List.{List, [], ◌∷◌, ◌++◌}
use native.Mathlib.Omega.{arith}
use netsim.Prelude.Tests.{if◌then◌else◌, Bool-cases, if-false}
use netsim.Prelude.Lists.{All}
use netsim.Prelude.Int.{ℤ, ltb_ℤ, eqb_ℤ}

abbrev pub Multimap {ℓ} : Type ℓ → Type ℓ
Multimap V = List (ℤ × V)

module _ {ℓ} {V : Type ℓ} where
  unfoldable pub insert : ℤ → V → Multimap V → Multimap V
  insert k v [] = (k, v) ∷ []
  insert k v ((j, w) ∷ m) =
      let rest = insert k v m in if ltb_ℤ k j then (k, v) ∷ (j, w) ∷ m else (j, w) ∷ rest

  -- The values of a key.
  unfoldable pub equal_range : ℤ → Multimap V → List V
  equal_range k [] = []
  equal_range k ((j, w) ∷ m) = let rest = equal_range k m in if eqb_ℤ j k then w ∷ rest else rest

  unfoldable pub erase : ℤ → Multimap V → Multimap V
  erase k [] = []
  erase k ((j, w) ∷ m) = let rest = erase k m in if eqb_ℤ j k then rest else (j, w) ∷ rest

  -- What stands before `upper_bound(k)` and what stands from it on.
  unfoldable pub up_to : ℤ → Multimap V → Multimap V
  up_to k [] = []
  up_to k ((j, w) ∷ m) = let rest = up_to k m in if ltb_ℤ k j then [] else (j, w) ∷ rest

  unfoldable pub from : ℤ → Multimap V → Multimap V
  from k [] = []
  from k ((j, w) ∷ m) = let rest = from k m in if ltb_ℤ k j then (j, w) ∷ m else rest

  -- No key of `m` is below `k`.
  abbrev pub NoneBelow : ℤ → Multimap V → Type 0
  NoneBelow k m = All (λ p. ltb_ℤ p.0 k ≡ false) m

  abbrev pub IsSorted : Multimap V → Type 0
  IsSorted [] = Unit
  IsSorted ((j, _) ∷ m) = NoneBelow j m × IsSorted m

  NoneBelow-insert :
      (k i : ℤ) (v : V) (m : Multimap V)
      → ltb_ℤ k i ≡ false
      → NoneBelow i m
      → NoneBelow i (insert k v m)
  unfolding insert
  NoneBelow-insert k i v [] h hs = (h, tt)
  NoneBelow-insert k i v ((j, w) ∷ m) h hs = elim (Bool-cases (ltb_ℤ k j)) [
    | inl before ↦ rw before (h, hs)
    | inr behind ↦ rw behind (hs.0, NoneBelow-insert k i v m h hs.1)
  ]

  NoneBelow-lower : (k i : ℤ) (m : Multimap V) → ltb_ℤ i k ≡ false → NoneBelow i m → NoneBelow k m
  NoneBelow-lower k i [] h hs = tt
  NoneBelow-lower k i ((j, w) ∷ m) h hs = (ground (arith, h, hs.0), NoneBelow-lower k i m h hs.1)

  pub insert-IsSorted : (k : ℤ) (v : V) (m : Multimap V) → IsSorted m → IsSorted (insert k v m)
  unfolding insert
  insert-IsSorted k v [] h = (tt, tt)
  insert-IsSorted k v ((j, w) ∷ m) h = elim (Bool-cases (ltb_ℤ k j)) [
    | inl before ↦ rw before ((ground arith, NoneBelow-lower k j m (ground arith) h.0), h)
    | inr behind ↦ rw behind (NoneBelow-insert k j v m behind h.0, insert-IsSorted k v m h.1)
  ]

  equal_range-over :
      (k : ℤ) (m : Multimap V) (j : ℤ) → ltb_ℤ k j ≡ true → NoneBelow j m → equal_range k m ≡ []
  unfolding equal_range
  equal_range-over k [] j h hs = refl
  equal_range-over k ((i, w) ∷ m) j h hs =
      if-false (eqb_ℤ i k) (w ∷ equal_range k m) (equal_range k m) (ground (arith, h, hs.0))
      ∙ equal_range-over k m j h hs.1

  -- An inserted value is the last one of its key.
  pub equal_range-insert :
      (k j : ℤ) (v : V) (m : Multimap V)
      → IsSorted m
      → equal_range j (insert k v m)
        ≡ (if eqb_ℤ k j then equal_range j m ++ v ∷ [] else equal_range j m)
  unfolding insert equal_range
  equal_range-insert k j v [] h = refl
  equal_range-insert k j v ((i, w) ∷ m) h = elim (Bool-cases (ltb_ℤ k i)) [
    | inl before ↦ elim (Bool-cases (eqb_ℤ k j)) [
      | inl same ↦
          let r : eqb_ℤ i j ≡ false = ground arith in
          let over : ltb_ℤ j i ≡ true = ground arith in
          rw (before, same, r) (rw (equal_range-over j m i over h.0))
      | inr other ↦ rw (before, other)
    ]
    | inr behind ↦ elim (Bool-cases (eqb_ℤ k j)) [
      | inl same ↦ elim (Bool-cases (eqb_ℤ i j)) [
        | inl r ↦ rw (behind, same, r) (rw (equal_range-insert k j v m h.1, same))
        | inr r ↦ rw (behind, same, r) (rw (equal_range-insert k j v m h.1, same))
      ]
      | inr other ↦ rw (behind, other) (rw (equal_range-insert k j v m h.1, other))
    ]
  ]

  pub equal_range-erase :
      (k j : ℤ) (m : Multimap V)
      → equal_range j (erase k m) ≡ (if eqb_ℤ k j then [] else equal_range j m)
  unfolding erase equal_range
  equal_range-erase k j [] = elim (Bool-cases (eqb_ℤ k j)) [ inl e ↦ rw e | inr e ↦ rw e ]
  equal_range-erase k j ((i, w) ∷ m) = elim (Bool-cases (eqb_ℤ i k)) [
    | inl gone ↦ elim (Bool-cases (eqb_ℤ k j)) [
      | inl same ↦ rw (gone, same) (rw (equal_range-erase k j m, same))
      | inr other ↦
          let r : eqb_ℤ i j ≡ false = ground arith in
          rw (gone, other, r) (rw (equal_range-erase k j m, other))
    ]
    | inr kept ↦ elim (Bool-cases (eqb_ℤ k j)) [
      | inl same ↦
          let r : eqb_ℤ i j ≡ false = ground arith in
          rw (kept, same, r) (rw (equal_range-erase k j m, same))
      | inr other ↦ rw (kept, other) (rw (equal_range-erase k j m, other))
    ]
  ]

  pub erase-IsSorted : (k : ℤ) (m : Multimap V) → IsSorted m → IsSorted (erase k m)
  unfolding erase
  erase-IsSorted k [] h = tt
  erase-IsSorted k ((i, w) ∷ m) h = elim (Bool-cases (eqb_ℤ i k)) [
    | inl gone ↦ rw gone (erase-IsSorted k m h.1)
    | inr kept ↦ rw kept (NoneBelow-erase k i m h.0, erase-IsSorted k m h.1)
  ]
    where
      NoneBelow-erase : (k i : ℤ) (m : Multimap V) → NoneBelow i m → NoneBelow i (erase k m)
      NoneBelow-erase k i [] h = tt
      NoneBelow-erase k i ((j, w) ∷ m) h = elim (Bool-cases (eqb_ℤ j k)) [
        | inl gone ↦ rw gone (NoneBelow-erase k i m h.1)
        | inr kept ↦ rw kept (h.0, NoneBelow-erase k i m h.1)
      ]

  -- The entries up to a key and those from it on are all of them, in order.
  pub up_to-from : (k : ℤ) (m : Multimap V) → up_to k m ++ from k m ≡ m
  unfolding up_to from
  up_to-from k [] = refl
  up_to-from k ((j, w) ∷ m) = elim (Bool-cases (ltb_ℤ k j)) [
    | inl over ↦ rw over
    | inr due ↦ rw due (ap (λ l. (j, w) ∷ l) (up_to-from k m))
  ]

  pub up_to-All : (k : ℤ) (m : Multimap V) → All (λ p. ltb_ℤ k p.0 ≡ false) (up_to k m)
  unfolding up_to
  up_to-All k [] = tt
  up_to-All k ((j, w) ∷ m) = elim (Bool-cases (ltb_ℤ k j)) [
    | inl over ↦ rw over tt
    | inr due ↦ rw due (due, up_to-All k m)
  ]

  pub from-All :
      (k : ℤ) (m : Multimap V)
      → IsSorted m
      → All (λ p. ltb_ℤ k p.0 ≡ true) (from k m) × IsSorted (from k m)
  unfolding from
  from-All k [] h = (tt, tt)
  from-All k ((j, w) ∷ m) h = elim (Bool-cases (ltb_ℤ k j)) [
    | inl over ↦ rw over ((over, all_over k j m over h.0), h)
    | inr due ↦ rw due (from-All k m h.1)
  ]
    where
      all_over :
          (k j : ℤ) (m : Multimap V)
          → ltb_ℤ k j ≡ true
          → NoneBelow j m
          → All (λ p. ltb_ℤ k p.0 ≡ true) m
      all_over k j [] over h = tt
      all_over k j ((i, w) ∷ m) over h = (ground (arith, over, h.0), all_over k j m over h.1)
