-- ===== src/Tcp/Sessions.antt =====
-- src/lib/tcp/tcp_server.cpp: which session a message for an endpoint is written to.
use netsim.Prelude.{
  ℕ, ◌≡◌, refl, sym, subst, ap, ◌∙◌, ◌⊎◌, inl, inr, true, false, Bool-cases, List, [], ◌∷◌, All,
  Option, none, some, Option-cases, ◌==◌, if◌then◌else◌, if-true, if-false, arith,
}
use netsim.Prelude.Maps.{
  Map, lookup, insert, erase, assign, contains, contains-eq-lookup, lookup-assign, lookup-erase,
  eqb_refl,
}
use netsim.Prelude.Text.{Text, text_key}
use netsim.Tcp.{TcpServer, accept, expire, write}

-- The session that a write to an endpoint reaches.
abbrev pub reached : Text → TcpServer → Option ℕ
reached ep s = (write ep s).1

lookup-insert_new :
    (k : Text) (v : ℕ) (m : Map Text ℕ) → lookup k m ≡ none → lookup k (insert k v m) ≡ some v
unfolding insert
lookup-insert_new k v m new =
    let absent : contains k m ≡ false = contains-eq-lookup k m ∙ rw new in
    ap (lookup k) (if-false (contains k m) m (assign k v m) absent)
    ∙ lookup-assign k k v m
    ∙ if-true _ _ _ (eqb_refl k)

lookup-insert_old :
    (k : Text) (v w : ℕ) (m : Map Text ℕ) → lookup k m ≡ some w → lookup k (insert k v m) ≡ some w
unfolding insert
lookup-insert_old k v w m old =
    let there : contains k m ≡ true = contains-eq-lookup k m ∙ rw old in
    ap (lookup k) (if-true (contains k m) m (assign k v m) there) ∙ old

write_unknown : (ep : Text) (s : TcpServer) → lookup ep s.sessions ≡ none → write ep s ≡ (s, none)
unfolding write
write_unknown ep s e =
    ap
      (λ o. elim o [
        | none ↦ (s, none)
        | some session ↦
            if s.alive session
            then (s, some session)
            else (record s { sessions = erase ep s.sessions }, none)
      ])
      e

write_gone :
    (ep : Text) (i : ℕ) (s : TcpServer)
    → lookup ep s.sessions ≡ some i
    → s.alive i ≡ false
    → write ep s ≡ (record s { sessions = erase ep s.sessions }, none)
unfolding write
write_gone ep i s e gone =
    ap
      (λ o. elim o [
        | none ↦ (s, none)
        | some session ↦
            if s.alive session
            then (s, some session)
            else (record s { sessions = erase ep s.sessions }, none)
      ])
      e
    ∙ if-false (s.alive i) _ _ gone

write_live :
    (ep : Text) (i : ℕ) (s : TcpServer)
    → lookup ep s.sessions ≡ some i
    → s.alive i ≡ true
    → write ep s ≡ (s, some i)
unfolding write
write_live ep i s e live =
    ap
      (λ o. elim o [
        | none ↦ (s, none)
        | some session ↦
            if s.alive session
            then (s, some session)
            else (record s { sessions = erase ep s.sessions }, none)
      ])
      e
    ∙ if-true (s.alive i) _ _ live

-- A new session of an endpoint that has no entry is the one that is written to.
accept-reached :
    (ep : Text) (session : ℕ) (s : TcpServer)
    → lookup ep s.sessions ≡ none
    → reached ep (accept ep session s) ≡ some session
unfolding accept
accept-reached ep session s new =
    ap (λ (p : TcpServer × Option ℕ). p.1)
      (write_live ep session (accept ep session s) (lookup-insert_new ep session s.sessions new)
        (ground arith))

lookup-insert_other :
    (j k : Text) (v : ℕ) (m : Map Text ℕ)
    → text_key.eqb j k ≡ false
    → lookup k (insert j v m) ≡ lookup k m
unfolding insert
lookup-insert_other j k v m other = elim (Bool-cases (contains j m)) [
  | inl there ↦ ap (lookup k) (if-true (contains j m) m (assign j v m) there)
  | inr new ↦
      ap (lookup k) (if-false (contains j m) m (assign j v m) new)
      ∙ lookup-assign j k v m
      ∙ if-false _ _ _ other
]

-- What happens to the table of sessions.
pub data Event : Type 0 where
  accepts : Text → ℕ → Event
  expires : ℕ → Event
  writes : Text → Event

unfoldable pub happen : List Event → TcpServer → TcpServer
happen [] s = s
happen (accepts ep session ∷ es) s = happen es (accept ep session s)
happen (expires session ∷ es) s = happen es (expire session s)
happen (writes ep ∷ es) s = happen es (write ep s).0

-- The endpoint does not connect, and no new session is the old one.
abbrev pub LeavesOut : Text → ℕ → Event → Type 0
LeavesOut ep old (accepts ep' session) = (text_key.eqb ep' ep ≡ false) × ((old == session) ≡ false)
LeavesOut ep old (expires session) = Unit
LeavesOut ep old (writes ep') = Unit

-- The entry of the endpoint is missing, or of a session that has gone away.
abbrev IsGone : Text → ℕ → TcpServer → Type 0
IsGone ep old s =
    (lookup ep s.sessions ≡ none) ⊎ ((lookup ep s.sessions ≡ some old) × (s.alive old ≡ false))

erased :
    (ep k : Text) (old : ℕ) (s : TcpServer)
    → IsGone ep old s
    → IsGone ep old (record s { sessions = erase k s.sessions })
erased ep k old s gone = elim (Bool-cases (text_key.eqb k ep)) [
  | inl same ↦ inl (lookup-erase k ep s.sessions ∙ if-true _ _ _ same)
  | inr other ↦
      let e = lookup-erase k ep s.sessions ∙ if-false _ _ _ other in
      elim gone [ inl new ↦ inl (e ∙ new) | inr (old, dead) ↦ inr (e ∙ old, dead) ]
]

write-IsGone :
    (ep k : Text) (old : ℕ) (s : TcpServer) → IsGone ep old s → IsGone ep old (write k s).0
write-IsGone ep k old s gone =
    let Goes : TcpServer × Option ℕ → Type 0 = λ p. IsGone ep old p.0 in
    elim (Option-cases (lookup k s.sessions)) [
      | inl new ↦ subst Goes (sym (write_unknown k s new)) gone
      | inr (i, at) ↦ elim (Bool-cases (s.alive i)) [
        | inl live ↦ subst Goes (sym (write_live k i s at live)) gone
        | inr dead ↦ subst Goes (sym (write_gone k i s at dead)) (erased ep k old s gone)
      ]
    ]

accept-IsGone :
    (ep k : Text) (old session : ℕ) (s : TcpServer)
    → text_key.eqb k ep ≡ false
    → (old == session) ≡ false
    → IsGone ep old s
    → IsGone ep old (accept k session s)
unfolding accept
accept-IsGone ep k old session s other fresh gone =
    let e = lookup-insert_other k ep session s.sessions other in
    elim gone [
      | inl new ↦ inl (e ∙ new)
      | inr (at, dead) ↦ inr (e ∙ at, ground (arith, dead, fresh))
    ]

happen-IsGone :
    (ep : Text) (old : ℕ) (es : List Event) (s : TcpServer)
    → All (LeavesOut ep old) es
    → IsGone ep old s
    → IsGone ep old (happen es s)
unfolding happen expire
happen-IsGone ep old [] s out gone = gone
happen-IsGone ep old (accepts k session ∷ es) s out gone =
    happen-IsGone ep old es (accept k session s) out.1
      (accept-IsGone ep k old session s out.0.0 out.0.1 gone)
happen-IsGone ep old (expires session ∷ es) s out gone =
    happen-IsGone ep old es (expire session s) out.1
      (elim gone [ inl new ↦ inl new | inr (at, dead) ↦ inr (at, ground (arith, dead)) ])
happen-IsGone ep old (writes k ∷ es) s out gone =
    happen-IsGone ep old es (write k s).0 out.1 (write-IsGone ep k old s gone)

-- A write to such an endpoint reaches no session and leaves no entry.
write-unreached :
    (ep : Text) (old : ℕ) (s : TcpServer)
    → IsGone ep old s
    → (reached ep s ≡ none) × (lookup ep ((write ep s).0).sessions ≡ none)
write-unreached ep old s gone =
    let Unreached : TcpServer × Option ℕ → Type 0 =
      λ p. (p.1 ≡ none) × (lookup ep (p.0).sessions ≡ none) in
    elim gone [
      | inl new ↦ subst Unreached (sym (write_unknown ep s new)) (refl, new)
      | inr (at, dead) ↦
          subst Unreached (sym (write_gone ep old s at dead))
            (refl, lookup-erase ep ep s.sessions ∙ if-true _ _ _ (eqb_refl ep))
    ]

-- A session of an endpoint whose entry is of a session that has gone away is not written to, though
-- it is there: whatever is written, accepted from other endpoints and disconnected after it, each
-- message for the endpoint is dropped as long as it does not connect once more. If a message for it
-- came before that, its next session is the one that is written to.
pub accept_stale-reached :
    (ep : Text) (old session next : ℕ) (s : TcpServer) (es : List Event)
    → lookup ep s.sessions ≡ some old
    → s.alive old ≡ false
    → (old == session) ≡ false
    → All (LeavesOut ep old) es
    → let s1 = accept ep session s in
      let s2 = happen es s1 in
      (s1.alive session ≡ true)
      × (reached ep s2 ≡ none)
      × (reached ep (accept ep next (write ep s2).0) ≡ some next)
unfolding accept
accept_stale-reached ep old session next s es entry gone other out =
    let s1 = accept ep session s in
    let s2 = happen es s1 in
    let first : IsGone ep old s1 =
      inr (lookup-insert_old ep session old s.sessions entry, ground (arith, gone, other)) in
    let dropped = write-unreached ep old s2 (happen-IsGone ep old es s1 out first) in
    (ground arith, dropped.0, accept-reached ep next (write ep s2).0 dropped.1)
