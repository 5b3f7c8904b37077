-- ===== src/Manager/Gps/Angles.antt =====
-- src/apps/netsim_manager/manager.cpp: reading the fields of the sentence back.
use netsim.Prelude.{
  ℕ, zero, suc, ◌+◌, ◌*◌, ◌^◌, ◌<◌, ◌≡◌, refl, ap, ◌∙◌, sym, subst, [], ◌∷◌, ◌++◌, length, take,
  drop, length-append, append_assoc, arith,
}
use netsim.Prelude.Int.{pos}
use netsim.Prelude.Text.{Text, nat_text, pad_left}
use netsim.Prelude.Decimal.{value, value-pad_left, length-pad_left}
use netsim.Manager.Gps.{zero_padded}

-- What a receiver reads of a coordinate with `w` digits of degrees, in ten-thousandths of a minute.
unfoldable pub read_angle : ℕ → Text → ℕ
read_angle w t =
    (value (take w t) * 60 + value (take 2 (drop w t))) * 10000 + value (drop (w + 3) t)

pub take-length : (s t : Text) → take (length s) (s ++ t) ≡ s
take-length [] t = refl
take-length (a ∷ s) t = ap (◌∷◌ a) (take-length s t)

pub drop-length : (s t : Text) → drop (length s) (s ++ t) ≡ t
drop-length [] t = refl
drop-length (a ∷ s) t = drop-length s t

drop-nothing : (n : ℕ) → drop {A = ℕ} n [] ≡ []
drop-nothing zero = refl
drop-nothing (suc n) = refl

drop-add : (k n : ℕ) (t : Text) → drop (n + k) t ≡ drop k (drop n t)
drop-add k zero t = ap (λ i. drop i t) {x = 0 + k} {y = k} (omega arith)
drop-add k (suc n) [] = drop-nothing (suc n + k) ∙ sym (drop-nothing k)
drop-add k (suc n) (a ∷ t) =
    ap (λ i. drop i (a ∷ t)) {x = suc n + k} {y = suc (n + k)} (omega arith) ∙ drop-add k n t

-- A coordinate of three numbers with fixed widths.
pub read_angle-fields :
    (w a b e : ℕ)
    → a < 10 ^ suc w
    → b < 100
    → e < 10000
    → let t =
        zero_padded (suc w) (pos a) ++ zero_padded 2 (pos b) ++ b'.' ∷ zero_padded 4 (pos e) in
      (length t ≡ suc w + 7) × (read_angle (suc w) t ≡ (a * 60 + b) * 10000 + e)
unfolding read_angle zero_padded
read_angle-fields w a b e la lb le =
    let A = pad_left (suc w) b'0' (nat_text a) in
    let B = pad_left 2 b'0' (nat_text b) in
    let E = pad_left 4 b'0' (nat_text e) in
    let rest = B ++ b'.' ∷ E in
    let lA = length-pad_left w a la in
    let lB = length-pad_left 1 b lb in
    let lE = length-pad_left 3 e le in
    let behind : drop (suc w) (A ++ rest) ≡ rest =
      ap (λ n. drop n (A ++ rest)) (sym lA) ∙ drop-length A rest in
    subst (λ t. (length t ≡ suc w + 7) × (read_angle (suc w) t ≡ (a * 60 + b) * 10000 + e))
      (sym (append_assoc A B (b'.' ∷ E)))
      (
        length-append A rest
            ∙ ap (λ n. length A + n) (length-append B (b'.' ∷ E))
            ∙ omega (arith, lA, lB, lE),
        ap
              (λ t.
                (value t * 60 + value (take 2 (drop (suc w) (A ++ rest)))) * 10000
                + value (drop (suc w + 3) (A ++ rest)))
              (ap (λ n. take n (A ++ rest)) (sym lA) ∙ take-length A rest)
            ∙ ap
                (λ t.
                  (value A * 60 + value (take 2 t)) * 10000 + value (drop (suc w + 3) (A ++ rest)))
                behind
            ∙ ap (λ t. (value A * 60 + value t) * 10000 + value (drop (suc w + 3) (A ++ rest)))
                (ap (λ n. take n rest) (sym lB) ∙ take-length B (b'.' ∷ E))
            ∙ ap (λ t. (value A * 60 + value B) * 10000 + value t)
                (drop-add 3 (suc w) (A ++ rest)
                  ∙ ap (drop 3) behind
                  ∙ drop-add 1 2 rest
                  ∙ ap (λ n. drop 1 (drop n rest)) (sym lB)
                  ∙ ap (drop 1) (drop-length B (b'.' ∷ E)))
            ∙ ap (λ n. (n * 60 + value B) * 10000 + value E) (value-pad_left (suc w) a)
            ∙ ap (λ n. (a * 60 + n) * 10000 + value E) (value-pad_left 2 b)
            ∙ ap (λ n. (a * 60 + b) * 10000 + n) (value-pad_left 4 e),
      )
