-- ===== src/Core/Network/Processors.antt =====
-- src/lib/core/processor.h, publish_audio_buffer, and src/test/processor_echo: the processor that
-- publishes what it hears unchanged. What is published is a list of groups with their blocks.
use netsim.Prelude.{
  ℕ, ◌+◌, ◌≤◌, ◌<◌, ◌≡◌, refl, sym, ap, ◌∙◌, not, ◌&&◌, Bool, true, false, List, [], ◌∷◌, ◌++◌,
  replicate, zero, suc, ltb, leb, ◌==◌, if◌then◌else◌, if-true, if-false, Bool-cases, inl, inr,
  append-nil, arith,
}
use netsim.Core.Jack.Setup.{
  SetupStep, subscribed, set_callbacks, activated, registered, connected, subscribe_out,
}
use netsim.Core.Network.{logger_case, audio_out_group, listens, launch_processors}
use netsim.Core.Network.Launch.{times}
use netsim.Core.Network.Groups.{listens-times, logger_case-audio_out_group}

unfoldable pub publish_audio_buffer : {A : Type 0} → ℕ → ℕ → A → ℕ → List (ℕ × A)
publish_audio_buffer max to b tx = if ltb tx max then (audio_out_group max tx to, b) ∷ [] else []

-- The echo: it publishes the block as one of its sender.
unfoldable pub detector_audio_callback : {A : Type 0} → ℕ → ℕ → A → ℕ → List (ℕ × A)
detector_audio_callback max to b modem_id = publish_audio_buffer max to b modem_id

-- The callbacks of a processor's subscriptions, applied to a block of modem `from`.
unfoldable pub callbacks : {A : Type 0} → ℕ → ℕ → List ℕ → A → ℕ → List (ℕ × A)
callbacks max to [] b from = []
callbacks max to (i ∷ is) b from =
    let rest = callbacks max to is b from in
    if i == from then detector_audio_callback max to b i ++ rest else rest

-- What the processor of modem `to` publishes, if the switch over `max` cases launches it.
unfoldable pub echo : {A : Type 0} → ℕ → ℕ → ℕ → A → ℕ → List (ℕ × A)
echo max n to b from = if ltb to max then callbacks max to (listens to n) b from else []

unfoldable pub echo_all : {A : Type 0} → ℕ → ℕ → List ℕ → A → ℕ → List (ℕ × A)
echo_all max n [] b from = []
echo_all max n (to ∷ tos) b from = echo max n to b from ++ echo_all max n tos b from

-- The blocks that a subscriber of a group gets.
unfoldable pub on_group : {A : Type 0} → ℕ → List (ℕ × A) → List A
on_group g [] = []
on_group g ((h, b) ∷ out) = let rest = on_group g out in if h == g then b ∷ rest else rest

on_group-append :
    {A : Type 0} (g : ℕ) (xs ys : List (ℕ × A))
    → on_group g (xs ++ ys) ≡ on_group g xs ++ on_group g ys
unfolding on_group
on_group-append g [] ys = refl
on_group-append g ((h, b) ∷ xs) ys = ground (arith, on_group-append g xs ys)

audio_out_group-injective :
    (max from k to' to : ℕ)
    → from < max
    → k < max
    → to' < max
    → to < max
    → audio_out_group max from to' ≡ audio_out_group max k to
    → (from ≡ k) × (to' ≡ to)
audio_out_group-injective max from k to' to hf hk h' h e =
    let same : (from, to') ≡ (k, to) =
      sym (logger_case-audio_out_group max from to' hf h')
      ∙ ap (logger_case max) e
      ∙ logger_case-audio_out_group max k to hk h in
    (ap (λ p. p.0) same, ap (λ p. p.1) same)

eqb-both :
    (g g' a a' b b' : ℕ)
    → ((g ≡ g') → (a ≡ a') × (b ≡ b'))
    → ((a ≡ a') → (b ≡ b') → g ≡ g')
    → (g == g') ≡ (a == a' && b == b')
eqb-both g g' a a' b b' to from = ground arith

-- The numbers of two groups are equal exactly if they are of the same two modems.
audio_out_group-eqb :
    (max from k to' to : ℕ)
    → from < max
    → k < max
    → to' < max
    → to < max
    → (audio_out_group max from to' == audio_out_group max k to) ≡ (from == k && to' == to)
audio_out_group-eqb max from k to' to hf hk h' h =
    eqb-both (audio_out_group max from to') (audio_out_group max k to) from k to' to
      (audio_out_group-injective max from k to' to hf hk h' h)
      (λ e e'. ap (λ n. audio_out_group max n to') e ∙ ap (audio_out_group max k) e')

on_group-callbacks :
    {A : Type 0} (max k to to' : ℕ) (is : List ℕ) (b : A) (from : ℕ)
    → k < max
    → to < max
    → to' < max
    → on_group (audio_out_group max k to) (callbacks max to' is b from)
      ≡ (if ltb from max && from == k && to' == to then replicate (times from is) b else [])
unfolding callbacks times on_group detector_audio_callback publish_audio_buffer
on_group-callbacks max k to to' [] b from hk h h' = ground arith
on_group-callbacks max k to to' (i ∷ is) b from hk h h' =
    let out = callbacks max to' is b from in
    let g = audio_out_group max k to in
    ground (
      arith,
      on_group-append g (detector_audio_callback max to' b i) out,
      audio_out_group-eqb max from k to' to,
      on_group-callbacks max k to to' is b from hk h h',
    )

on_group-echo :
    {A : Type 0} (max n k to to' : ℕ) (b : A) (from : ℕ)
    → n ≤ max
    → k < max
    → to < max
    → on_group (audio_out_group max k to) (echo max n to' b from)
      ≡ (if (ltb from n && from == k && not (from == to)) && to' == to then b ∷ [] else [])
unfolding echo on_group
on_group-echo max n k to to' b from hn hk h =
    ground
      (arith, on_group-callbacks max k to to' (listens to' n) b from hk h, listens-times to' n from)

if-append :
    {A : Type 0} (b : A) (heard : Bool) (first to rest : ℕ)
    → (if heard && first == to then b ∷ [] else [])
        ++ (if heard && (leb (first + 1) to && ltb to (first + 1 + rest)) then b ∷ [] else [])
      ≡ (if heard && (leb first to && ltb to (first + suc rest)) then b ∷ [] else [])
if-append b true first to rest = ground arith
if-append b false first to rest = refl

-- What is published on the group of `k` for `to`.
on_group-all :
    {A : Type 0} (max n k to first count : ℕ) (b : A) (from : ℕ)
    → n ≤ max
    → k < max
    → to < max
    → on_group (audio_out_group max k to) (echo_all max n (launch_processors first count) b from)
      ≡ (if (ltb from n && from == k && not (from == to))
            && (leb first to && ltb to (first + count))
          then b ∷ []
          else [])
unfolding echo_all launch_processors on_group
on_group-all max n k to first zero b from hn hk h = ground arith
on_group-all max n k to first (suc count) b from hn hk h =
    let heard = ltb from n && from == k && not (from == to) in
    let out = echo_all max n (launch_processors (first + 1) count) b from in
    on_group-append (audio_out_group max k to) (echo max n first b from) out
    ∙ ap (λ l. l ++ on_group (audio_out_group max k to) out)
        (on_group-echo max n k to first b from hn hk h)
    ∙ ap (λ l. (if heard && first == to then b ∷ [] else []) ++ l)
        (on_group-all max n k to (first + 1) count b from hn hk h)
    ∙ if-append b heard first to count

-- The blocks that the thread of a modem gets for its port `to` on the groups it has subscribed to.
unfoldable pub heard_at : {A : Type 0} → ℕ → ℕ → List SetupStep → List (ℕ × A) → List A
heard_at max to [] out = []
heard_at max to (subscribed k i ∷ steps) out =
    let rest = heard_at max to steps out in
    if i == to then on_group (audio_out_group max k i) out ++ rest else rest
heard_at max to (set_callbacks ∷ steps) out = heard_at max to steps out
heard_at max to (activated ∷ steps) out = heard_at max to steps out
heard_at max to (registered _ ∷ steps) out = heard_at max to steps out
heard_at max to (connected _ _ ∷ steps) out = heard_at max to steps out

heard_at-subscribe_out :
    {A : Type 0} (max k to i n : ℕ) (out : List (ℕ × A))
    → i + n ≤ max
    → heard_at max to (subscribe_out max k i n) out
      ≡ (if leb i to && ltb to (i + n) then on_group (audio_out_group max k to) out else [])
unfolding heard_at subscribe_out
heard_at-subscribe_out max k to i zero out h = ground arith
heard_at-subscribe_out max k to i (suc n) out h =
    let rest = heard_at max to (subscribe_out max k (i + 1) n) out in
    let own = on_group (audio_out_group max k i) out in
    let it = on_group (audio_out_group max k to) out in
    let hyp = heard_at-subscribe_out max k to (i + 1) n out (omega arith) in
    ap (λ l. heard_at max to l out) (if-true (ltb i max) _ _ (ground arith))
    ∙ elim (Bool-cases (i == to)) [
      | inl same ↦
          let at : i ≡ to = ground (arith, same) in
          if-true (i == to) (own ++ rest) rest same
          ∙ ap (λ r. own ++ r) (hyp ∙ if-false _ it [] (ground (arith, at)))
          ∙ append-nil own
          ∙ ap (λ j. on_group (audio_out_group max k j) out) at
          ∙ sym (if-true (leb i to && ltb to (i + suc n)) it [] (ground (arith, at)))
      | inr other ↦
          if-false (i == to) (own ++ rest) rest other
          ∙ hyp
          ∙ ap (λ c. if c then it else []) (ground (arith, other))
    ]

-- Let there be `n` modems, at most `max`, and echo processors from modem `first` on. Through the
-- subscriptions of its constructor the JACK thread of modem `k` gets a block of modem `from` for its
-- port `to` exactly if `k` is `from`, `from` and `to` are two modems, and the processor of `to` is one
-- of those; and then once and unchanged.
pub on_group-echo_all :
    {A : Type 0} (max n k to first count : ℕ) (b : A) (from : ℕ)
    → n ≤ max
    → k < n
    → heard_at max to
        (subscribe_out max k 0 n)
        (echo_all max n (launch_processors first count) b from)
      ≡ (if (from == k && ltb to n && not (from == to)) && (leb first to && ltb to (first + count))
          then b ∷ []
          else [])
on_group-echo_all max n k to first count b from hn hk =
    heard_at-subscribe_out max k to 0 n (echo_all max n (launch_processors first count) b from)
      (omega arith)
    ∙ elim (Bool-cases (ltb to n)) [
      | inl within ↦
          if-true (leb 0 to && ltb to (0 + n)) _ _ (ground (arith, within))
          ∙ on_group-all max n k to first count b from hn (omega arith) (ground (arith, within))
          ∙ ap (λ c. if c then b ∷ [] else []) (ground (arith, within, hk))
      | inr beyond ↦
          if-false (leb 0 to && ltb to (0 + n)) _ _ (ground (arith, beyond))
          ∙ sym (if-false _ (b ∷ []) [] (ground (arith, beyond)))
    ]
