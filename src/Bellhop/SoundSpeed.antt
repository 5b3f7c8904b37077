-- ===== src/Bellhop/SoundSpeed.antt =====
-- src/apps/iBellhop: the sound speed profile of the first water column, its updates and what is read of
-- it. `none` is a fault: there is no such column or function.
pub mod Sorting
pub mod Depths
pub mod Updates
pub mod Interpolation
use Prim.Native.String.{String}
use netsim.Prelude.{
  ◌>>=◌, ℕ, zero, suc, ◌+◌, ◌-◌, min, Bool, true, false, not, ◌&&◌, List, [], ◌∷◌, ◌++◌, map,
  Option, none, some, length, ◌==◌, if◌then◌else◌,
}
use netsim.Prelude.Floats.{Double, of_nat}
use netsim.Prelude.Maps.{string_key}
use netsim.Acoustics.{SspSample, WaterColumn, Environment}
use netsim.Acoustics.Profile.{add_eofs}
use netsim.Bellhop.{Libraries, IBellhopConfig, IBellhop, Act, publish, publish_text, own_report}

module _ {ℓ} {D : Type ℓ} where
  -- The first water column and its samples.
  unfoldable pub first_column : Environment D → Option (WaterColumn D)
  first_column env = elim (env.water_column) [ [] ↦ none | c ∷ _ ↦ some c ]

  unfoldable pub set_samples : List (SspSample D) → List (WaterColumn D) → List (WaterColumn D)
  set_samples samples [] = []
  set_samples samples (c ∷ columns) = record c { sample = samples } ∷ columns

module _ {ℓ} {D : Type ℓ} ⦃d : Double D⦄ where
  abbrev pub equal : D → D → Bool
  equal a b = d.le a b && d.le b a

  -- A sample that is set: all its functions are forced to zero.
  unfoldable pub set_sample : D → D → SspSample D → SspSample D
  set_sample depth cp s = record { depth = depth; cp = cp; eof = map (λ _. of_nat 0) s.eof }

  -- find_sample, and the changes to what it finds or adds.
  unfoldable pub update_sample : D → D → List (SspSample D) → List (SspSample D)
  update_sample depth cp [] = record { depth = depth; cp = cp; eof = [] } ∷ []
  update_sample depth cp (s ∷ samples) =
      let rest = update_sample depth cp samples in
      if equal depth s.depth then set_sample depth cp s ∷ samples else s ∷ rest

  -- The loop over the depths and speeds.
  unfoldable pub update_samples :
      Libraries D → List String → List String → List (SspSample D) → List (SspSample D)
  update_samples lib [] speeds samples = samples
  update_samples lib (z ∷ depths) [] samples = samples
  update_samples lib (z ∷ depths) (c ∷ speeds) samples = update_samples lib depths speeds (
      if not (string_key.eqb c "0") && not (string_key.eqb c "")
      then update_sample (lib.as_double z) (lib.as_double c) samples
      else samples)

  -- A list of a message, split at its commas.
  unfoldable pub values : Libraries D → String → String → List String
  values lib s key = lib.split (elim (lib.val_from_string s key) [ none ↦ "" | some v ↦ v ])

  -- With a new profile of the first column.
  unfoldable pub with_samples : List (SspSample D) → IBellhop D → IBellhop D
  with_samples samples s =
      let env = s.cfg.initial_env in
      record s {
        cfg = record s.cfg {
          initial_env = record env { water_column = set_samples samples env.water_column };
        };
      }

  unfoldable pub handle_ssp_update : Libraries D → String → IBellhop D → Option (IBellhop D)
  handle_ssp_update lib msg s =
      let depths = values lib msg "depth" in
      let speeds = values lib msg "c" in
      if not (length depths == length speeds)
      then some s
      else (first_column s.cfg.initial_env >>= λ c.
          some (with_samples (lib.sort_samples (update_samples lib depths speeds c.sample)) s))

  -- `ssp_dn`: the loop runs over the first `n` functions.
  unfoldable pub add_first_eofs : ℕ → D → List D → List D → Option D
  add_first_eofs zero ssp eofs coefs = some ssp
  add_first_eofs (suc n) ssp (eof ∷ eofs) (coef ∷ coefs) =
      add_first_eofs n (d.add ssp (d.mul eof coef)) eofs coefs
  add_first_eofs (suc n) ssp [] coefs = none
  add_first_eofs (suc n) ssp (eof ∷ eofs) [] = none

  -- Between two samples.
  unfoldable pub interpolate : List D → D → SspSample D → SspSample D → Option D
  interpolate coefs depth up dn = do
    let ssp_up = add_eofs up.cp up.eof coefs
    ssp_dn ← add_first_eofs (min (length up.eof) (length coefs)) dn.cp dn.eof coefs
    some (
        d.add ssp_up
          (d.div (d.mul (d.sub depth up.depth) (d.sub ssp_dn ssp_up)) (d.sub dn.depth up.depth)))

  -- The loop over the pairs of neighbours.
  unfoldable pub find_ssp_value : List D → D → List (SspSample D) → Option D
  find_ssp_value coefs depth [] = some (of_nat 0)
  find_ssp_value coefs depth (up ∷ []) = some (of_nat 0)
  find_ssp_value coefs depth (up ∷ dn ∷ samples) =
      let rest = find_ssp_value coefs depth (dn ∷ samples) in
      if d.le up.depth depth && d.le depth dn.depth then interpolate coefs depth up dn else rest

  unfoldable pub get_ssp_value : Environment D → D → Option D
  get_ssp_value env depth = do c ← first_column env; find_ssp_value c.eof_coef depth c.sample

  -- The loop over the depths of a request: the speeds, behind each other.
  unfoldable pub ssp_values : Libraries D → Environment D → List String → Option (List D)
  ssp_values lib env [] = some []
  ssp_values lib env (z ∷ depths) = do
    cp ← get_ssp_value env (lib.as_double z)
    rest ← ssp_values lib env depths
    some (cp ∷ rest)

  -- The response has the request, and the speeds as `show` prints them with commas between.
  unfoldable pub handle_ssp_request :
      Libraries D → (List D → String) → String → IBellhop D → Option (List (Act D))
  handle_ssp_request lib show msg s = do
    speeds ← ssp_values lib s.cfg.initial_env (values lib msg "depth")
    some
        (publish_text "SSP_INFO_RESPONSE" (lib.concat (msg ∷ ",c={" ∷ show speeds ∷ "}" ∷ [])) ∷ [])

  unfoldable pub handle_nav_depth : D → IBellhop D → Option (IBellhop D × List (Act D))
  handle_nav_depth value s =
      let s1 = own_report (λ r. record r { depth = value }) s in
      elim (s.cfg.local_sound_speed_var) [
        | none ↦ some (s1, [])
        | some var ↦ get_ssp_value s.cfg.initial_env value >>= λ cp. some (s1, publish var cp ∷ [])
      ]
