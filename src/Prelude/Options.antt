-- ===== src/Prelude/Options.antt =====
-- Results that may be missing.
use mathlib.Core.Path.{◌≡◌, ap, refl, subst}
use mathlib.Core.Bool.{Bool, true, false}
use mathlib.Core.Option.{Option, none, some}
use netsim.Prelude.Tests.{if◌then◌else◌}

infixl 5 ◌>>=◌
abbrev pub ◌>>=◌ {ℓ κ} : {A : Type ℓ} {B : Type κ} → Option A → (A → Option B) → Option B
none >>= f = none
some a >>= f = f a

-- A result cannot be none and some.
pub none_or_some {ℓ κ} : {A : Type ℓ} {B : Type κ} {a : A} → none ≡ some a → B
none_or_some {B} e = absurd (subst (λ o. elim o [ none ↦ Unit | some _ ↦ ⊥ ]) e tt)

pub some_inj {ℓ} : {A : Type ℓ} {a b : A} → some a ≡ some b → a ≡ b
some_inj {a} e = ap (λ o. elim o [ none ↦ a | some x ↦ x ]) e

-- What a result behind a test, and behind another one, tells of these.
pub if-some {ℓ} :
    {A : Type ℓ} {a : A} (b : Bool) (o : Option A)
    → (if b then o else none) ≡ some a
    → (b ≡ true) × (o ≡ some a)
if-some true o e = (refl, e)
if-some false o e = none_or_some e

pub bind-some {ℓ κ} :
    {A : Type ℓ} {B : Type κ} {b : B} (o : Option A) (f : A → Option B)
    → (o >>= f) ≡ some b
    → (a : A) × (o ≡ some a) × (f a ≡ some b)
bind-some none f e = none_or_some e
bind-some (some a) f e = (a, refl, e)
