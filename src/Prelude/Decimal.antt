-- ===== src/Prelude/Decimal.antt =====
-- Reading the numerals of Prelude.Text back.
use Prim.Native.Nat.{ℕ, zero, suc, ◌+◌, ◌-◌, ◌*◌, ◌/◌, ◌%◌, ◌^◌, ◌<◌, ◌≤◌}
use mathlib.Core.Path.{◌≡◌, refl, ap, ◌∙◌, sym, subst}
use mathlib.Core.Bool.{false}
use mathlib.Core.Logic.{inl, inr}
use mathlib.Core.List.{[], ◌∷◌, ◌++◌}
use native.Mathlib.Omega.{arith}
use netsim.Prelude.Lists.{length, replicate, length-append, length-replicate}
use netsim.Prelude.Tests.{ltb, if-true, if-false, Bool-cases}
use netsim.Prelude.Text.{Text, digits, nat_text, pad_left}

-- The number that a text of digits stands for, behind the digits of `k`.
unfoldable pub value_from : ℕ → Text → ℕ
value_from k [] = k
value_from k (c ∷ t) = value_from (k * 10 + (c - b'0')) t

unfoldable pub value : Text → ℕ
value t = value_from 0 t

value_from-digits :
    (fuel n : ℕ) (acc : Text) → n < fuel → value_from 0 (digits fuel n acc) ≡ value_from n acc
unfolding value_from digits
value_from-digits zero n acc l = absurd (omega arith)
value_from-digits (suc fuel) n acc l = elim (Bool-cases (ltb n 10)) [
  | inl e ↦
      ap (value_from 0)
        (if-true (ltb n 10) ((b'0' + n) ∷ acc) (digits fuel (n / 10) ((b'0' + n % 10) ∷ acc)) e)
      ∙ ap (λ k. value_from k acc) {x = 0 * 10 + (b'0' + n - b'0')} {y = n} (omega arith)
  | inr e ↦
      ap (value_from 0)
        (if-false (ltb n 10) ((b'0' + n) ∷ acc) (digits fuel (n / 10) ((b'0' + n % 10) ∷ acc)) e)
      ∙ value_from-digits fuel (n / 10) ((b'0' + n % 10) ∷ acc) (ground arith)
      ∙ ap (λ k. value_from k acc) {x = n / 10 * 10 + (b'0' + n % 10 - b'0')} {y = n} (omega arith)
]

value_from-zeros : (k : ℕ) (t : Text) → value_from 0 (replicate k b'0' ++ t) ≡ value_from 0 t
unfolding value_from
value_from-zeros zero t = refl
value_from-zeros (suc k) t = value_from-zeros k t

length-digits :
    (fuel n w : ℕ) (acc : Text) → n < 10 ^ suc w → length (digits fuel n acc) ≤ suc w + length acc
unfolding digits
length-digits zero n w acc l = omega arith
length-digits (suc fuel) n w acc l = elim (Bool-cases (ltb n 10)) [
  | inl e ↦
      subst (λ t. length t ≤ suc w + length acc)
        (sym
          (if-true (ltb n 10) ((b'0' + n) ∷ acc) (digits fuel (n / 10) ((b'0' + n % 10) ∷ acc)) e))
        (omega arith)
  | inr e ↦
      subst (λ t. length t ≤ suc w + length acc)
        (sym
          (if-false (ltb n 10) ((b'0' + n) ∷ acc) (digits fuel (n / 10) ((b'0' + n % 10) ∷ acc)) e))
        (more w (leb_of e) l (λ v l'. length-digits fuel (n / 10) v ((b'0' + n % 10) ∷ acc) l'))
]
  where
    leb_of : ltb n 10 ≡ false → 10 ≤ n
    leb_of e = ground arith

    more :
        (w : ℕ)
        → 10 ≤ n
        → n < 10 ^ suc w
        → ((v : ℕ)
            → n / 10 < 10 ^ suc v
            → length (digits fuel (n / 10) ((b'0' + n % 10) ∷ acc)) ≤ suc v + suc (length acc))
        → length (digits fuel (n / 10) ((b'0' + n % 10) ∷ acc)) ≤ suc w + length acc
    more zero l l' ih = absurd (omega (arith, l, l'))
    more (suc v) l l' ih = omega (arith, ih v (omega (arith, l')))

-- A number of at most `w` digits, printed with that width, is read back, and has that width.
pub value-pad_left : (w n : ℕ) → value (pad_left w b'0' (nat_text n)) ≡ n
unfolding value nat_text pad_left value_from
value-pad_left w n =
    value_from-zeros (w - length (digits (n + 1) n [])) (digits (n + 1) n [])
    ∙ value_from-digits (n + 1) n [] (omega arith)

pub length-pad_left :
    (w n : ℕ) → n < 10 ^ suc w → length (pad_left (suc w) b'0' (nat_text n)) ≡ suc w
unfolding nat_text pad_left
length-pad_left w n l =
    let t = digits (n + 1) n [] in
    length-append (replicate (suc w - length t) b'0') t
    ∙ ap (λ k. k + length t) (length-replicate (suc w - length t) b'0')
    ∙ omega (arith, length-digits (n + 1) n w [] l)
