-- ===== src/Prelude/Text.antt =====
-- Decimal numerals and padding, as `std::to_string` and `std::setw` with a fill of '0' print them.
use Prim.Native.Nat.{ℕ, zero, suc, ◌+◌, ◌-◌, ◌/◌, ◌%◌}
use mathlib.Core.List.{List, [], ◌∷◌, ◌++◌}
use mathlib.Core.Path.{◌≡◌}
use mathlib.Core.Logic.{◌↔◌}
use mathlib.Core.Bool.{Bool, true, false, ◌&&◌, ◌||◌}
use native.Mathlib.Omega.{arith}
use netsim.Prelude.Maps.{Key}
use netsim.Prelude.Int.{ℤ, pos, negsuc}
use netsim.Prelude.Lists.{length, replicate}
use netsim.Prelude.Tests.{ltb, ◌==◌, if◌then◌else◌}

-- A text is the list of its character codes.
abbrev pub Text : Type 0
Text = List ℕ

-- The digits of `n` before `acc`; the fuel is at least the number of digits.
unfoldable pub digits : ℕ → ℕ → Text → Text
digits zero n acc = acc
digits (suc fuel) n acc =
    let rest = digits fuel (n / 10) ((b'0' + n % 10) ∷ acc) in
    if ltb n 10 then (b'0' + n) ∷ acc else rest

unfoldable pub nat_text : ℕ → Text
unfolding digits
nat_text n = digits (n + 1) n []

unfoldable pub int_text : ℤ → Text
unfolding nat_text
int_text (pos n) = nat_text n
int_text (negsuc n) = b'-' ∷ nat_text (n + 1)

unfoldable pub pad_left : ℕ → ℕ → Text → Text
pad_left width fill t = replicate (width - length t) fill ++ t

abbrev text_eqb : Text → Text → Bool
text_eqb [] [] = true
text_eqb [] (_ ∷ _) = false
text_eqb (_ ∷ _) [] = false
text_eqb (a ∷ s) (b ∷ t) = a == b && text_eqb s t

-- The order of `std::string`.
abbrev text_lt : Text → Text → Bool
text_lt s [] = false
text_lt [] (_ ∷ _) = true
text_lt (a ∷ s) (b ∷ t) = ltb a b || (a == b && text_lt s t)

pub text_eqb_iff : (s t : Text) → (text_eqb s t ≡ true) ↔ (s ≡ t)
text_eqb_iff [] [] = ground arith
text_eqb_iff [] (b ∷ t) = ground arith
text_eqb_iff (a ∷ s) [] = ground arith
text_eqb_iff (a ∷ s) (b ∷ t) = ground (arith, text_eqb_iff s t)

instance abbrev pub text_key : Key Text
text_key = record { eqb = text_eqb; lt = text_lt; eqb_iff = text_eqb_iff }
