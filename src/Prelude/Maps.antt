-- ===== src/Prelude/Maps.antt =====
-- `std::map`: an association list that insertion keeps in the order of the keys.
use Prim.Native.Nat.{ℕ, Ordering}
use Prim.Native.String as NString
use Prim.Native.String.{String}
use mathlib.Core.Path.{◌≡◌, refl}
use mathlib.Core.Logic.{◌↔◌}
use mathlib.Core.Bool.{Bool, true, false}
use mathlib.Core.List.{List, [], ◌∷◌}
use mathlib.Core.Option.{Option, none, some}
use native.Mathlib.Omega.{arith}
use text.Mathlib.Text.{◌==◌ as str_eq}
use text.Mathlib.TextEquality.{eq_iff}
use netsim.Prelude.Tests.{ltb, ◌==◌ as nat_beq, ==_iff, if◌then◌else◌}
use netsim.Prelude.Int.{ℤ, ltb_ℤ, eqb_ℤ, eqb_ℤ_iff}

-- What a map asks of its keys.
pub record Key {ℓ} (K : Type ℓ) : Type ℓ where
  pub eqb : K → K → Bool
  pub lt : K → K → Bool
  pub eqb_iff : (a b : K) → (eqb a b ≡ true) ↔ (a ≡ b)

instance abbrev pub nat_key : Key ℕ
nat_key = record { eqb = nat_beq; lt = ltb; eqb_iff = ==_iff }

instance abbrev pub int_key : Key ℤ
int_key = record { eqb = eqb_ℤ; lt = ltb_ℤ; eqb_iff = eqb_ℤ_iff }

abbrev str_lt : String → String → Bool
str_lt s t = elim (NString.compare s t) [ Ordering.lt ↦ true | _ ↦ false ]

instance abbrev pub string_key : Key String
string_key = record { eqb = str_eq; lt = str_lt; eqb_iff = eq_iff }

abbrev pub Map {ℓ κ} : Type ℓ → Type κ → Type (ℓ ⊔ κ)
Map K V = List (K × V)

pub eqb_refl {ℓ} : {K : Type ℓ} ⦃e : Key K⦄ (k : K) → e.eqb k k ≡ true
eqb_refl ⦃e⦄ k = (e.eqb_iff k k).1 refl

module _ {ℓ κ} {K : Type ℓ} {V : Type κ} ⦃e : Key K⦄ where
  unfoldable pub lookup : K → Map K V → Option V
  lookup k [] = none
  lookup k ((j, v) ∷ m) = if e.eqb j k then some v else lookup k m

  -- `m.count(k)`.
  unfoldable pub contains : K → Map K V → Bool
  contains k [] = false
  contains k ((j, v) ∷ m) = if e.eqb j k then true else contains k m

  -- `m[k] = v`.
  unfoldable pub assign : K → V → Map K V → Map K V
  assign k v [] = (k, v) ∷ []
  assign k v ((j, w) ∷ m) =
      let rest = assign k v m in
      if e.eqb j k then (k, v) ∷ m else if e.lt k j then (k, v) ∷ (j, w) ∷ m else (j, w) ∷ rest

  -- `m.insert({k, v})`, which leaves a value that is there.
  unfoldable pub insert : K → V → Map K V → Map K V
  unfolding contains assign
  insert k v m = if contains k m then m else assign k v m

  -- `m.erase(k)`.
  unfoldable pub erase : K → Map K V → Map K V
  erase k [] = []
  erase k ((j, v) ∷ m) = let rest = erase k m in if e.eqb j k then rest else (j, v) ∷ rest

  pub lookup-assign :
      (k j : K) (v : V) (m : Map K V)
      → lookup j (assign k v m) ≡ (if e.eqb k j then some v else lookup j m)
  unfolding lookup assign
  lookup-assign k j v [] = refl
  lookup-assign k j v ((i, w) ∷ m) =
      ground (arith, e.eqb_iff k j, e.eqb_iff i k, e.eqb_iff i j, lookup-assign k j v m)

  pub lookup-erase :
      (k j : K) (m : Map K V) → lookup j (erase k m) ≡ (if e.eqb k j then none else lookup j m)
  unfolding lookup erase
  lookup-erase k j [] = ground arith
  lookup-erase k j ((i, w) ∷ m) =
      ground (arith, e.eqb_iff k j, e.eqb_iff i k, e.eqb_iff i j, lookup-erase k j m)

  pub contains-eq-lookup :
      (k : K) (m : Map K V) → contains k m ≡ elim (lookup k m) [ none ↦ false | some _ ↦ true ]
  unfolding lookup contains
  contains-eq-lookup k [] = refl
  contains-eq-lookup k ((i, w) ∷ m) = ground (arith, contains-eq-lookup k m)
