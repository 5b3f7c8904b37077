-- ===== src/Bellhop/Positions.antt =====
-- src/apps/iBellhop/iBellhop.cpp, update_positions: the depth of the source and the ranges of the
-- receivers, from where the contact and the own ship are and will be.
pub mod Ranges
pub mod Names
use Prim.Native.String.{String}
use netsim.Prelude.{
  ℕ, ◌+◌, ◌-◌, ◌^◌, Bool, true, false, not, ◌&&◌, ◌||◌, List, [], ◌∷◌, ◌++◌, Option, none, some,
  ltb, if◌then◌else◌,
}
use netsim.Prelude.Int.{ℤ, pos, negsuc}
use netsim.Prelude.Floats.{Double, Cmath, of_nat}
use netsim.Prelude.Maps.{Map, lookup, string_key}
use netsim.Acoustics.{Sources, Receivers, AdaptiveInfo, Environment}
use netsim.Bellhop.{Libraries, NodeReport, IBellhopConfig, IBellhop, Act, publish}

-- `int look_ahead_seconds`, from an unsigned field.
unfoldable pub int_of_uint32 : ℕ → ℤ
int_of_uint32 n = if ltb n (2 ^ 31) then pos n else negsuc (2 ^ 32 - 1 - n)

module _ {ℓ} {D : Type ℓ} ⦃d : Double D⦄ ⦃f : Cmath D⦄ where
  -- `(90 - heading) * pi / 180`
  unfoldable pub theta : D → D
  theta heading = d.div (d.mul (d.sub (of_nat 90) heading) (f.decimal 314159 5)) (of_nat 180)

  -- The report of the contact at the time `now`, if it is to be extrapolated.
  unfoldable pub extrapolate : Bool → D → NodeReport D → NodeReport D
  extrapolate on now nav =
      let dr = d.mul nav.speed (d.sub now nav.time) in
      if on
      then record nav {
        x = d.add nav.x (d.mul dr (f.cos (theta nav.heading)));
        y = d.add nav.y (d.mul dr (f.sin (theta nav.heading)));
      }
      else nav

  -- `sqrt(dx * dx + dy * dy)`
  unfoldable pub distance : D → D → D
  distance dx dy = f.sqrt (d.add (d.mul dx dx) (d.mul dy dy))

  unfoldable pub future_x : ℤ → NodeReport D → D
  future_x seconds nav =
      d.add nav.x (d.mul (d.mul nav.speed (f.cos (theta nav.heading))) (d.of_int seconds))

  unfoldable pub future_y : ℤ → NodeReport D → D
  future_y seconds nav =
      d.add nav.y (d.mul (d.mul nav.speed (f.sin (theta nav.heading))) (d.of_int seconds))

  unfoldable pub future_range : ℤ → NodeReport D → NodeReport D → D
  future_range seconds self other =
      distance (d.sub (future_x seconds self) (future_x seconds other))
        (d.sub (future_y seconds self) (future_y seconds other))

  unfoldable pub opening_speed : NodeReport D → NodeReport D → D
  opening_speed self other =
      let bearing = f.atan2 (d.sub other.y self.y) (d.sub other.x self.x) in
      d.sub (d.mul other.speed (f.cos (d.sub (theta other.heading) bearing)))
        (d.mul self.speed (f.cos (d.sub (theta self.heading) bearing)))

  unfoldable pub set_source_depth : D → Environment D → Environment D
  set_source_depth depth env =
      if env.adaptive_info.auto_source_depth
      then record env { sources = record env.sources { first_depth = depth } }
      else env

  unfoldable pub set_ranges : D → D → Environment D → Environment D
  set_ranges r future_r env =
      let n = d.to_uint32 (
        f.ceil (
          d.div (d.abs (d.sub future_r r))
            (d.of_int env.adaptive_info.auto_receiver_ranges_delta))) in
      let near = if d.le r future_r then r else future_r in
      let far = if d.le r future_r then future_r else r in
      if env.adaptive_info.auto_receiver_ranges
      then record env {
        receivers = record env.receivers {
          number_in_range = n;
          first_range = near;
          last_range = far;
        };
      }
      else env

  -- With the reports of both.
  unfoldable pub place :
      Libraries D
      → NodeReport D
      → NodeReport D
      → Environment D
      → Bool × Environment D × List (Act D)
  place lib self other env =
      let r = distance (d.sub other.x self.x) (d.sub other.y self.y) in
      let seconds = int_of_uint32 env.adaptive_info.look_ahead_seconds in
      let name = lib.to_upper env.adaptive_info.contact in
      (
        true,
        set_ranges r (future_range seconds self other) (set_source_depth other.depth env),
        publish (lib.concat (name ∷ "_RANGE" ∷ [])) r
            ∷ publish (lib.concat (name ∷ "_DEPTH" ∷ [])) other.depth
            ∷ publish (lib.concat (name ∷ "_RATE" ∷ [])) (opening_speed self other)
            ∷ [],
      )

  -- Whether the positions are known, the environment with them, and what is published.
  unfoldable pub update_positions :
      Libraries D → D → IBellhop D → Environment D → Bool × Environment D × List (Act D)
  update_positions lib now s env =
      if not env.adaptive_info.auto_receiver_ranges && not env.adaptive_info.auto_source_depth
      then (true, env, [])
      else (elim (lookup env.adaptive_info.contact s.node_reports) [
        | none ↦ (false, env, [])
        | some other ↦ elim (lookup env.adaptive_info.ownship s.node_reports) [
          | none ↦ (false, env, [])
          | some self ↦ place lib self (extrapolate s.cfg.extrapolate_nav now other) env
        ]
      ])
