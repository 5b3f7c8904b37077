-- ===== src/Bellhop/Positions/Names.antt =====
-- src/apps/iBellhop: the own ship's reports are kept under its name as it is configured, and looked for
-- under that name in lower case.
use Prim.Native.String.{String}
use netsim.Prelude.{
  ◌>>=◌, ◌≡◌, refl, subst, ap, ◌∙◌, true, false, not, ◌&&◌, List, [], ◌∷◌, Option, none, some,
  if-false, arith,
}
use netsim.Prelude.Floats.{Double, Cmath}
use netsim.Prelude.Maps.{lookup, string_key, lookup-assign}
use netsim.Acoustics.{Environment}
use netsim.Bellhop.{
  Libraries, NodeReport, IBellhop, Act, publish, own_report, handle_nav_x, handle_nav_y,
  handle_nav_speed, handle_nav_heading,
}
use netsim.Bellhop.SoundSpeed.{get_ssp_value, handle_nav_depth}
use netsim.Bellhop.Positions.{place, extrapolate, update_positions}

-- The messages with the navigation of the own ship.
pub data NavMessage {ℓ} (D : Type ℓ) : Type ℓ where
  nav_x : D → D → NavMessage D
  nav_y nav_depth nav_speed nav_heading : D → NavMessage D

module _ {ℓ} {D : Type ℓ} ⦃d : Double D⦄ where
  unfoldable pub handle_nav : NavMessage D → IBellhop D → Option (IBellhop D)
  handle_nav (nav_x value time) s = some (handle_nav_x value time s)
  handle_nav (nav_y value) s = some (handle_nav_y value s)
  handle_nav (nav_depth value) s = handle_nav_depth value s >>= λ r. some r.0
  handle_nav (nav_speed value) s = some (handle_nav_speed value s)
  handle_nav (nav_heading value) s = some (handle_nav_heading value s)

  unfoldable pub handle_navs : List (NavMessage D) → IBellhop D → Option (IBellhop D)
  handle_navs [] s = some s
  handle_navs (m ∷ ms) s = handle_nav m s >>= handle_navs ms

  -- Nothing is known under a name that is not that of the own ship.
  abbrev Unknown : String → IBellhop D → Type ℓ
  Unknown name s =
      (string_key.eqb s.cfg.initial_env.adaptive_info.ownship name ≡ false)
      × (lookup name s.node_reports ≡ none)

  own_report-Unknown :
      (f : NodeReport D → NodeReport D) (name : String) (s : IBellhop D)
      → Unknown name s
      → Unknown name (own_report f s)
  unfolding own_report
  own_report-Unknown f name s (h, h') =
      let own = s.cfg.initial_env.adaptive_info.ownship in
      (h, lookup-assign own name _ s.node_reports ∙ if-false (string_key.eqb own name) _ _ h ∙ h')

  -- If there is a result, it has a property.
  abbrev Ensures {κ} : (IBellhop D → Type κ) → Option (IBellhop D) → Type κ
  Ensures P none = Unit
  Ensures P (some s) = P s

  kept_by_bind {κ} :
      (P : IBellhop D → Type κ) (f : IBellhop D → Option (IBellhop D)) (o : Option (IBellhop D))
      → ((s : IBellhop D) → P s → Ensures P (f s))
      → Ensures P o
      → Ensures P (o >>= f)
  kept_by_bind P f none h p = tt
  kept_by_bind P f (some s) h p = h s p

  kept_by_depth {κ} :
      (P : IBellhop D → Type κ) (value : D) (s : IBellhop D)
      → P (own_report (λ r. record r { depth = value }) s)
      → Ensures P (handle_nav_depth value s >>= λ r. some r.0)
  unfolding handle_nav_depth
  kept_by_depth P value s p =
      published (s.cfg.local_sound_speed_var) (get_ssp_value s.cfg.initial_env value)
    where
      s1 : IBellhop D
      s1 = own_report (λ r. record r { depth = value }) s

      published :
          (var : Option String) (cp : Option D)
          → Ensures P (
              (elim var as (λ _. Option (IBellhop D × List (Act D))) [
                | none ↦ some (s1, [])
                | some v ↦ cp >>= λ c. some (s1, publish v c ∷ [])
              ])
              >>= λ r. some r.0)
      published none cp = p
      published (some v) none = tt
      published (some v) (some c) = p

  handle_nav-Unknown :
      (m : NavMessage D) (name : String) (s : IBellhop D)
      → Unknown name s
      → Ensures (Unknown name) (handle_nav m s)
  unfolding handle_nav handle_nav_x handle_nav_y handle_nav_speed handle_nav_heading
  handle_nav-Unknown (nav_x value time) name s h = own_report-Unknown _ name s h
  handle_nav-Unknown (nav_y value) name s h = own_report-Unknown _ name s h
  handle_nav-Unknown (nav_depth value) name s h =
      kept_by_depth (Unknown name) value s (own_report-Unknown _ name s h)
  handle_nav-Unknown (nav_speed value) name s h = own_report-Unknown _ name s h
  handle_nav-Unknown (nav_heading value) name s h = own_report-Unknown _ name s h

  handle_navs-Unknown :
      (ms : List (NavMessage D)) (name : String) (s : IBellhop D)
      → Unknown name s
      → Ensures (Unknown name) (handle_navs ms s)
  unfolding handle_navs
  handle_navs-Unknown [] name s h = h
  handle_navs-Unknown (m ∷ ms) name s h =
      kept_by_bind (Unknown name) (handle_navs ms) (handle_nav m s) (handle_navs-Unknown ms name)
        (handle_nav-Unknown m name s h)

no_other {ℓ κ} :
    {A : Type ℓ} {B : Type κ} (o p : Option A) (b : B) (g : A → A → B)
    → p ≡ none
    → (elim o as (λ _. B) [ none ↦ b | some a ↦ elim p as (λ _. B) [ none ↦ b | some c ↦ g a c ] ])
      ≡ b
no_other none p b g e = refl
no_other {B} (some a) p b g e = ap (λ q. elim q as (λ _. B) [ none ↦ b | some c ↦ g a c ]) e

module _ {ℓ} {D : Type ℓ} ⦃d : Double D⦄ ⦃f : Cmath D⦄ where
  unknown_own :
      (lib : Libraries D) (now : D) (s : IBellhop D) (env : Environment D)
      → env.adaptive_info.auto_receiver_ranges ≡ true
      → lookup env.adaptive_info.ownship s.node_reports ≡ none
      → update_positions lib now s env ≡ (false, env, [])
  unfolding update_positions
  unknown_own lib now s env auto h =
      if-false
        (not env.adaptive_info.auto_receiver_ranges && not env.adaptive_info.auto_source_depth)
        (true, env, []) _ (ground arith)
      ∙ no_other (lookup env.adaptive_info.contact s.node_reports)
          (lookup env.adaptive_info.ownship s.node_reports) (false, env, [])
          (λ other self. place lib self (extrapolate s.cfg.extrapolate_nav now other) env) h

  -- Let the ranges be set for an own ship whose name in lower case is not its name as it is configured.
  -- However much of its navigation has come in, if no report has come under the lower case name, then
  -- update_positions fails.
  pub handle_navs-unknown :
      (lib : Libraries D) (now : D) (ms : List (NavMessage D)) (s s' : IBellhop D)
      (env : Environment D)
      → env.adaptive_info.auto_receiver_ranges ≡ true
      → env.adaptive_info.ownship ≡ lib.to_lower s.cfg.initial_env.adaptive_info.ownship
      → string_key.eqb s.cfg.initial_env.adaptive_info.ownship
          (lib.to_lower s.cfg.initial_env.adaptive_info.ownship)
        ≡ false
      → lookup (lib.to_lower s.cfg.initial_env.adaptive_info.ownship) s.node_reports ≡ none
      → handle_navs ms s ≡ some s'
      → update_positions lib now s' env ≡ (false, env, [])
  handle_navs-unknown lib now ms s s' env auto name differs unknown e =
      let own = lib.to_lower s.cfg.initial_env.adaptive_info.ownship in
      let after =
        subst (Ensures (Unknown own)) e (handle_navs-Unknown ms own s (differs, unknown)) in
      unknown_own lib now s' env auto (ap (λ n. lookup n s'.node_reports) name ∙ after.1)
