-- ===== src/Core/CircularBuffer.antt =====
-- `boost::circular_buffer`, which src/apps/netsim_core/detector.h uses and this repository does not
-- implement: its operations, with the effect that the Boost documentation gives for each on the
-- sequence of its elements.
use netsim.Prelude.{
  ℕ, ◌+◌, ◌-◌, ◌≡◌, refl, List, [], ◌∷◌, ◌++◌, length, take, drop, replicate, if◌then◌else◌, ltb,
}
use mathlib.Core.List.{tail}

-- What is left of `xs` when `x` is pushed and at most `n` elements fit: the newest.
abbrev pub push_bounded {ℓ} : {A : Type ℓ} → ℕ → A → List A → List A
push_bounded n x xs = drop (length xs + 1 - n) (xs ++ x ∷ [])

abbrev pub larger : ℕ → ℕ → ℕ
larger a b = if ltb a b then b else a

pub record CircularBuffer {ℓ} (A : Type ℓ) : Type (ℓ + 1) where
  pub Buf : Type ℓ
  pub with_capacity : ℕ → Buf
  pub push_back : A → Buf → Buf
  pub pop_front : Buf → Buf
  pub resize : ℕ → A → Buf → Buf
  -- from the front to the back
  pub elements : Buf → List A
  pub capacity : Buf → ℕ
  pub elements-with_capacity : (n : ℕ) → elements (with_capacity n) ≡ []
  pub capacity-with_capacity : (n : ℕ) → capacity (with_capacity n) ≡ n
  pub elements-push_back :
      (x : A) (b : Buf) → elements (push_back x b) ≡ push_bounded (capacity b) x (elements b)
  pub capacity-push_back : (x : A) (b : Buf) → capacity (push_back x b) ≡ capacity b
  pub elements-pop_front :
      (x : A) (xs : List A) (b : Buf) → elements b ≡ x ∷ xs → elements (pop_front b) ≡ xs
  pub capacity-pop_front :
      (x : A) (xs : List A) (b : Buf) → elements b ≡ x ∷ xs → capacity (pop_front b) ≡ capacity b
  pub elements-resize :
      (n : ℕ) (x : A) (b : Buf)
      → elements (resize n x b) ≡ take n (elements b) ++ replicate (n - length (elements b)) x
  pub capacity-resize : (n : ℕ) (x : A) (b : Buf) → capacity (resize n x b) ≡ larger (capacity b) n

-- A buffer that does what the documentation says: a list beside its capacity.
abbrev pub list_buffer {ℓ} : (A : Type ℓ) → CircularBuffer A
list_buffer A = record {
  Buf = List A × ℕ;
  with_capacity = λ n. ([], n);
  push_back = λ x b. (push_bounded b.1 x b.0, b.1);
  pop_front = λ b. (tail b.0, b.1);
  resize = λ n x b. (take n b.0 ++ replicate (n - length b.0) x, larger b.1 n);
  elements = λ b. b.0;
  capacity = λ b. b.1;
  elements-with_capacity = λ n. refl;
  capacity-with_capacity = λ n. refl;
  elements-push_back = λ x b. refl;
  capacity-push_back = λ x b. refl;
  elements-pop_front = λ x xs b e. rw e refl;
  capacity-pop_front = λ x xs b e. refl;
  elements-resize = λ n x b. refl;
  capacity-resize = λ n x b. refl;
}
