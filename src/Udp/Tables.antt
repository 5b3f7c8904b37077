-- ===== src/Udp/Tables.antt =====
-- src/apps/netsim_udp/main.cpp: the tables of the constructor, and the ids that they name.
use netsim.Prelude.{
  ◌≡◌, refl, ap, ap-if, ◌∙◌, sym, ℕ, false, subst, true, suc, map, Bool, Bool-cases, inl, inr, [],
  ◌∷◌, some, All, if◌then◌else◌, arith, ◌⊎◌, All-weaken, if-true, if-false,
}
use netsim.Prelude.Int.{ℤ, ltb_ℤ, eqb_ℤ, eqb_ℤ_iff}
use netsim.Prelude.Maps.{
  Map, lookup, insert, assign, contains, int_key, lookup-assign, contains-eq-lookup,
}
use netsim.Prelude.Text.{Text, text_key}
use netsim.Udp.{ModemEndPoint}
use netsim.Udp.Routing.{others}
use netsim.Udp.Forwarding.{count}

contains-assign :
    {V : Type 0} (k j : ℤ) (v : V) (m : Map ℤ V)
    → contains j (assign k v m) ≡ (if eqb_ℤ k j then true else contains j m)
contains-assign k j v m =
    ground
      (arith, contains-eq-lookup j (assign k v m), contains-eq-lookup j m, lookup-assign k j v m)

-- `insert` takes no key away and adds its own.
contains-insert :
    {V : Type 0} (k j : ℤ) (v : V) (m : Map ℤ V)
    → contains j (insert k v m) ≡ (if eqb_ℤ k j then true else contains j m)
unfolding insert
contains-insert k j v m = ground (arith, contains-assign k j v m, eqb_ℤ_iff k j)

-- An entry is old, or the new one.
pub lookup-insert :
    (k j : Text) (v i : ℤ) (m : Map Text ℤ)
    → lookup j (insert k v m) ≡ some i
    → (lookup j m ≡ some i) ⊎ (v ≡ i)
unfolding insert
lookup-insert k j v i m found = elim (Bool-cases (contains k m)) [
  | inl there ↦
      inl (subst (λ l. lookup j l ≡ some i) (if-true (contains k m) m (assign k v m) there) found)
  | inr new ↦
      let e : lookup j (assign k v m) ≡ some i =
        subst (λ l. lookup j l ≡ some i) (if-false (contains k m) m (assign k v m) new) found in
      ground (arith, lookup-assign k j v m, e)
]

-- The ids of all modems but one are configured.
pub others-AreKnown :
    (src : ℤ) (ms : Map ℤ ModemEndPoint) → All (λ i. contains i ms ≡ true) (others src ms)
unfolding others contains
others-AreKnown src [] = tt
others-AreKnown src ((j, m) ∷ ms) =
    let there : All (λ i. contains i ((j, m) ∷ ms) ≡ true) (others src ms) =
      All-weaken (λ i h. ground (arith, h)) (others src ms) (others-AreKnown src ms) in
    elim (Bool-cases (eqb_ℤ j src)) [
      | inl same ↦ rw same there
      | inr other ↦ rw other (ground (arith, (eqb_ℤ_iff j j).1 refl), there)
    ]

-- The modems of a `std::map` are different ones.
abbrev pub HasDistinct : Map ℤ ModemEndPoint → Type 0
HasDistinct ms = (i : ℤ) → count i (map (λ m. m.0) ms) ≡ (if contains i ms then 1 else 0)

-- The new id is counted in front of an old one, or behind it.
swapped :
    (front old new : Bool) (n n' : ℕ)
    → n' ≡ (if new then suc n else n)
    → (if front
        then (if new then suc (if old then suc n else n) else if old then suc n else n)
        else if old
        then suc n'
        else n')
      ≡ (if new then suc (if old then suc n else n) else if old then suc n else n)
swapped front old new n n' e = ground (arith, e)

count-assign :
    (k j : ℤ) (m : ModemEndPoint) (ms : Map ℤ ModemEndPoint)
    → contains k ms ≡ false
    → count j (map (λ m. m.0) (assign k m ms))
      ≡ (if eqb_ℤ k j then suc (count j (map (λ m. m.0) ms)) else count j (map (λ m. m.0) ms))
unfolding assign contains count
count-assign k j m [] new = refl
count-assign k j m ((i, w) ∷ ms) new =
    let Ids : Map ℤ ModemEndPoint → ℕ = λ l. count j (map (λ m. m.0) l) in
    let other : eqb_ℤ i k ≡ false = ground (arith, new) in
    let rest = count-assign k j m ms (ground (arith, new)) in
    ap Ids (if-false (eqb_ℤ i k) _ _ other)
    ∙ ap-if Ids (ltb_ℤ k i) ((k, m) ∷ (i, w) ∷ ms) ((i, w) ∷ assign k m ms)
    ∙ swapped (ltb_ℤ k i) (eqb_ℤ i j) (eqb_ℤ k j) (Ids ms) (Ids (assign k m ms)) rest

pub insert-HasDistinct :
    (k : ℤ) (m : ModemEndPoint) (ms : Map ℤ ModemEndPoint)
    → HasDistinct ms
    → HasDistinct (insert k m ms)
unfolding insert
insert-HasDistinct k m ms h i = elim (Bool-cases (contains k ms)) [
  | inl there ↦ subst HasDistinct (sym (if-true (contains k ms) ms (assign k m ms) there)) h i
  | inr new ↦
      subst HasDistinct (sym (if-false (contains k ms) ms (assign k m ms) new))
        (λ j.
          ground (arith, new, h j, count-assign k j m ms, contains-assign k j m ms, eqb_ℤ_iff k j))
        i
]

pub count-others :
    (src i : ℤ) (ms : Map ℤ ModemEndPoint)
    → count i (others src ms) ≡ (if eqb_ℤ i src then 0 else count i (map (λ m. m.0) ms))
unfolding others count
count-others src i [] = ground arith
count-others src i ((j, m) ∷ ms) =
    ground (arith, count-others src i ms, eqb_ℤ_iff j i, eqb_ℤ_iff j src, eqb_ℤ_iff i src)

pub still_there :
    (k i : ℤ) (m : ModemEndPoint) (ms : Map ℤ ModemEndPoint)
    → (contains i ms ≡ true) ⊎ (k ≡ i)
    → contains i (insert k m ms) ≡ true
still_there k i m ms h = ground (arith, contains-insert k i m ms, eqb_ℤ_iff k i, h)
