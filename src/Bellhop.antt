-- ===== src/Bellhop.antt =====
-- src/apps/iBellhop: `CiBellhop`, which runs the ray tracer BELLHOP for requests over MOOS. What it
-- publishes, writes and runs is a list of effects. What the code uses of Goby, Boost and protobuf is the
-- record `Libraries`.
pub mod SoundSpeed
pub mod Positions
pub mod Calculate
pub mod Requests
mod Examples
use Prim.Native.String.{String}
use netsim.Prelude.{ℕ, Bool, true, false, List, [], ◌∷◌, Option, none, some}
use netsim.Prelude.Floats.{Double, of_nat}
use netsim.Prelude.Maps.{Map, lookup, assign, string_key}
use netsim.Acoustics.{SspSample, WaterColumn, AdaptiveInfo, Environment}
use netsim.Acoustics.EnvFile.{Token}

pub record Libraries {ℓ} (D : Type ℓ) : Type ℓ where
  -- the value of a key in a text, if it has one
  pub val_from_string : String → String → Option String
  -- boost::split at the commas
  pub split : String → List String
  pub as_double : String → D
  pub to_lower : String → String
  pub to_upper : String → String
  -- the first 20 characters, with each ':' replaced by '_'
  pub file_part : String → String
  -- `std::string::operator+`
  pub concat : List String → String
  -- Environment::MergeFrom and WaterColumn::MergeFrom
  pub merge : Environment D → Environment D → Environment D
  pub merge_column : WaterColumn D → WaterColumn D → WaterColumn D
  -- `std::sort` by the depth
  pub sort_samples : List (SspSample D) → List (SspSample D)

pub record NodeReport {ℓ} (D : Type ℓ) : Type ℓ where
  pub time : D
  pub x : D
  pub y : D
  pub depth : D
  pub speed : D
  pub heading : D

pub record IBellhopConfig {ℓ} (D : Type ℓ) : Type ℓ where
  pub initial_env : Environment D
  pub moos_var_response : String
  pub output_env_dir : String
  pub extrapolate_nav : Bool
  pub local_sound_speed_var : Option String
  pub max_number_of_receivers : ℕ

-- A std::ofstream: the file that is open, and whether an operation failed.
pub record OutputStream : Type 0 where
  pub file : Option String
  pub failed : Bool

pub record OutputStreams : Type 0 where
  pub env_out : OutputStream
  pub ssp_out : OutputStream
  pub bty_out : OutputStream
  pub trc_out : OutputStream
  pub brc_out : OutputStream

pub record IBellhop {ℓ} (D : Type ℓ) : Type ℓ where
  pub cfg : IBellhopConfig D
  pub node_reports : Map String (NodeReport D)
  pub streams : OutputStreams

-- An act: a number or a text that is published for a MOOS variable, tokens that reach a file, a shell command.
pub data Act {ℓ} (D : Type ℓ) : Type ℓ where
  publish : String → D → Act D
  publish_text : String → String → Act D
  written : String → List (Token D) → Act D
  system : String → Act D

module _ {ℓ} {D : Type ℓ} ⦃d : Double D⦄ where
  -- `node_reports_[name]`, where a new report is all zeros.
  unfoldable pub report : String → Map String (NodeReport D) → NodeReport D
  report name reports = elim (lookup name reports) [
    | none ↦ record {
      time = of_nat 0;
      x = of_nat 0;
      y = of_nat 0;
      depth = of_nat 0;
      speed = of_nat 0;
      heading = of_nat 0;
    }
    | some r ↦ r
  ]

  -- `node_reports_[ownship]` with a change.
  unfoldable pub own_report : (NodeReport D → NodeReport D) → IBellhop D → IBellhop D
  own_report f s =
      let name = s.cfg.initial_env.adaptive_info.ownship in
      record s { node_reports = assign name (f (report name s.node_reports)) s.node_reports }

  unfoldable pub handle_nav_x : D → D → IBellhop D → IBellhop D
  handle_nav_x value time s = own_report (λ r. record r { x = value; time = time }) s

  unfoldable pub handle_nav_y : D → IBellhop D → IBellhop D
  handle_nav_y value s = own_report (λ r. record r { y = value }) s

  unfoldable pub handle_nav_speed : D → IBellhop D → IBellhop D
  handle_nav_speed value s = own_report (λ r. record r { speed = value }) s

  unfoldable pub handle_nav_heading : D → IBellhop D → IBellhop D
  handle_nav_heading value s = own_report (λ r. record r { heading = value }) s

  -- A number of a report: that of the key, if the text has it.
  unfoldable pub value_of : Libraries D → String → String → D → D
  value_of lib s key old = elim (lib.val_from_string s key) [
    | none ↦ old
    | some v ↦ lib.as_double v
  ]

  unfoldable pub handle_node_report : Libraries D → String → IBellhop D → IBellhop D
  handle_node_report lib s state =
      let name = lib.to_lower (elim (lib.val_from_string s "NAME") [ none ↦ "" | some n ↦ n ]) in
      let r = report name state.node_reports in
      let r' : NodeReport D = record {
        x = value_of lib s "X" r.x;
        y = value_of lib s "Y" r.y;
        depth = value_of lib s "DEPTH" (value_of lib s "DEP" r.depth);
        speed = value_of lib s "SPD" r.speed;
        heading = value_of lib s "HDG" r.heading;
        time = value_of lib s "UTC_TIME" (value_of lib s "TIME" r.time);
      } in
      record state { node_reports = assign name r' state.node_reports }
