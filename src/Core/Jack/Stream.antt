-- ===== src/Core/Jack/Stream.antt =====
-- src/apps/netsim_core/jack_thread.h: a port's queue as the stream of samples that it stands for.
use netsim.Prelude.{
  ℕ, zero, suc, ◌+◌, ◌≤◌, ◌<◌, ◌≡◌, ◌⊎◌, refl, ap, ◌∙◌, List, [], ◌∷◌, ◌++◌, Option, none, some,
  arith, length, get_elem?, drop, All,
}
use netsim.Core.Audio.{AudioBuffer, TaggedAudioBuffer}
use netsim.Core.Jack.{Cursor, samples_of}

-- The samples of a message, none for a null pointer.
abbrev pub samples {ℓ} : {D : Type ℓ} → TaggedAudioBuffer D → List D
samples t = elim t.buffer [ none ↦ [] | some b ↦ b.samples ]

-- The message carries a block.
abbrev pub HasBlock {ℓ} : {D : Type ℓ} → TaggedAudioBuffer D → Type 0
HasBlock t = elim t.buffer [ none ↦ ⊥ | some _ ↦ Unit ]

-- The samples of a queue, one block after the other, and `silence` behind them.
unfoldable pub concat {ℓ} : {D : Type ℓ} → List (TaggedAudioBuffer D) → List D → List D
concat [] silence = silence
concat (t ∷ ts) silence = samples t ++ concat ts silence

-- What is played from a position on. The block that is read stands at the front of the queue; if
-- the queue is empty, it is the block of silence.
unfoldable pub pending {ℓ} :
    {D : Type ℓ} → List D → TaggedAudioBuffer D → ℕ → List (TaggedAudioBuffer D) → List D
unfolding concat
pending silence tx index [] = drop index (samples tx)
pending silence tx index (_ ∷ rest) = drop index (samples tx) ++ concat rest silence

-- The block that is read is the front of the queue, and `e` if the queue is empty.
abbrev pub IsFront {ℓ} : {A : Type ℓ} → A → A → List A → Type ℓ
IsFront {A} e t queue = ((queue ≡ []) × (t ≡ e)) ⊎ ((rest : List A) × (queue ≡ t ∷ rest))

-- A cursor of the loop, with the block `e` of silence: no pointer is null.
pub record IsPlayable {ℓ} {D : Type ℓ} (e : TaggedAudioBuffer D) (c : Cursor D) : Type ℓ where
  pub at_front : IsFront e c.tx c.queue
  pub current : HasBlock c.tx
  pub queued : All HasBlock c.queue

pub drop-all {ℓ} : {A : Type ℓ} (n : ℕ) (xs : List A) → length xs ≤ n → drop n xs ≡ []
drop-all zero [] h = refl
drop-all zero (x ∷ xs) h = absurd (omega arith)
drop-all (suc n) [] h = refl
drop-all (suc n) (x ∷ xs) h = drop-all n xs (omega arith)

pub get_elem?-drop {ℓ} :
    {A : Type ℓ} (xs : List A) (i : ℕ)
    → i < length xs
    → (x : A) × (get_elem? xs i ≡ some x) × (drop i xs ≡ x ∷ drop (i + 1) xs)
get_elem?-drop [] i h = absurd (omega arith)
get_elem?-drop (x ∷ xs) zero h = (x, refl, refl)
get_elem?-drop (x ∷ xs) (suc i) h =
    let (y, e, e') = get_elem?-drop xs i (omega arith) in
    (
      y,
      e,
      e'
          ∙ ap (λ l. y ∷ l)
              (ap (λ k. drop k (x ∷ xs)) {x = suc (i + 1)} {y = suc i + 1} (omega arith)),
    )

pub samples_of-eq {ℓ} :
    {D : Type ℓ} (t : TaggedAudioBuffer D) → HasBlock t → samples_of t ≡ some (samples t)
samples_of-eq {D} t h = go t.buffer refl
  where
    go : (b : Option (AudioBuffer D)) → t.buffer ≡ b → samples_of t ≡ some (samples t)
    go none e = absurd (rw e at h)
    go (some block) e = rw (e, samples_of, samples)

pub pending-step {ℓ} :
    {D : Type ℓ} (silence : List D) (tx : TaggedAudioBuffer D) (i : ℕ)
    (queue : List (TaggedAudioBuffer D)) {x : D}
    → drop i (samples tx) ≡ x ∷ drop (i + 1) (samples tx)
    → pending silence tx i queue ≡ x ∷ pending silence tx (i + 1) queue
unfolding pending
pending-step silence tx i [] e = e
pending-step silence tx i (q ∷ rest) e = ap (λ l. l ++ concat rest silence) e
