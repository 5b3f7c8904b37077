-- ===== src/Prelude/Floats.antt =====
-- `float` and `double`: an abstract type with the operations that the code applies to it. Nothing
-- is assumed of them but what a theorem names; NaN and rounding are thus allowed for.
use Prim.Native.Nat.{ℕ, ◌%◌, ◌^◌}
use mathlib.Core.Bool.{Bool}
use netsim.Prelude.Int.{ℤ, pos, pos_part, ◌+ℤ◌, ◌-ℤ◌, ◌*ℤ◌, ◌/ℤ◌, ltb_ℤ, leb_ℤ}
use mathlib.Core.Path.{◌≡◌, refl}
use netsim.Prelude.Tests.{if◌then◌else◌}

pub record Double {ℓ} (D : Type ℓ) : Type ℓ where
  pub of_int : ℤ → D
  pub add : D → D → D
  pub sub : D → D → D
  pub mul : D → D → D
  pub div : D → D → D
  pub le : D → D → Bool
  pub lt : D → D → Bool
  -- `std::abs`, `std::fabs`
  pub abs : D → D
  -- conversion to an integer type, where that type holds the result
  pub trunc : D → ℤ
  -- conversion to `uint32_t`, of which C++ says nothing where the value is out of range
  pub to_uint32 : D → ℕ

-- The order of numbers other than NaN: each has a rank, and numbers of equal rank compare
-- as equal.
pub record Ranked {ℓ} {D : Type ℓ} (d : Double D) : Type ℓ where
  pub rank : D → ℤ
  pub lt_rank : (a b : D) → d.lt a b ≡ ltb_ℤ (rank a) (rank b)
  pub le_rank : (a b : D) → d.le a b ≡ leb_ℤ (rank a) (rank b)

-- What the code uses of <cmath>, the minus sign, and `decimal m k` for the literal of m / 10 ^ k.
pub record Cmath {ℓ} (D : Type ℓ) : Type ℓ where
  pub neg : D → D
  pub pow : D → D → D
  pub sqrt : D → D
  pub cos : D → D
  pub sin : D → D
  pub atan2 : D → D → D
  pub ceil : D → D
  pub floor : D → D
  pub log10 : D → D
  -- `std::abs` of a complex number
  pub hypot : D → D → D
  -- conversion to `float`
  pub to_float : D → D
  pub decimal : ℕ → ℕ → D

abbrev pub of_nat {ℓ} : {D : Type ℓ} ⦃d : Double D⦄ → ℕ → D
of_nat ⦃d⦄ n = d.of_int (pos n)

abbrev abs_ℤ : ℤ → ℤ
abs_ℤ a = if ltb_ℤ a (pos 0) then pos 0 -ℤ a else a

-- Whole numbers, for concrete runs.
instance abbrev pub int_double : Double ℤ
int_double = record {
  of_int = λ z. z;
  add = ◌+ℤ◌;
  sub = ◌-ℤ◌;
  mul = ◌*ℤ◌;
  div = ◌/ℤ◌;
  le = leb_ℤ;
  lt = ltb_ℤ;
  abs = abs_ℤ;
  trunc = λ z. z;
  to_uint32 = λ z. pos_part z % 2 ^ 32;
}

-- Stand-ins on whole numbers, for concrete runs: all angles count as 0, and each root as 1.
instance abbrev pub int_cmath : Cmath ℤ
int_cmath = record {
  neg = λ a. pos 0 -ℤ a;
  pow = λ a b. a;
  sqrt = λ a. if ltb_ℤ (pos 0) a then pos 1 else pos 0;
  cos = λ a. pos 1;
  sin = λ a. pos 0;
  atan2 = λ a b. pos 0;
  ceil = λ a. a;
  floor = λ a. a;
  log10 = λ a. pos 0;
  hypot = λ a b. a;
  to_float = λ a. a;
  decimal = λ m k. ◌/ℤ◌ (pos m) (pos (10 ^ k));
}

abbrev pub int_ranked : Ranked int_double
int_ranked = record { rank = λ z. z; lt_rank = λ a b. refl; le_rank = λ a b. refl }
