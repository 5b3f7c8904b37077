-- ===== src/Bellhop/Calculate.antt =====
-- src/apps/iBellhop/iBellhop.cpp, calculate_env and read_shd: the files for BELLHOP, the run, and its
-- transmission losses. `none` ends the program: an exit, or a step that is undefined. What a file got
-- before the exception of output_env is not kept.
pub mod Streams
pub mod Refused
use Prim.Native.String.{String}
use netsim.Prelude.{
  ◌>>=◌, ℕ, zero, suc, Bool, true, false, List, [], ◌∷◌, ◌++◌, Option, none, some, if◌then◌else◌,
}
use netsim.Prelude.Int.{pos_part}
use netsim.Prelude.Floats.{Double, Cmath, of_nat}
use netsim.Acoustics.{
  OutputType, arrival_times, eigenrays, rays, coherent_pressure, incoherent_pressure,
  semicoherent_pressure, AdaptiveInfo, Environment,
}
use netsim.Acoustics.Profile.{ok, thrown, undefined}
use netsim.Acoustics.EnvFile.{Token, EnvFiles, output_env}
use netsim.Bellhop.{
  Libraries, IBellhopConfig, OutputStream, OutputStreams, Act, publish_text, written, system,
}

-- `open` of a std::ofstream: it fails on one that is open, and clears the failure if it succeeds.
unfoldable pub open_stream : (String → Bool) → String → OutputStream → OutputStream
open_stream can_open name s = elim (s.file) [
  | none ↦
      if can_open name
      then record { file = some name; failed = false }
      else record { file = none; failed = true }
  | some old ↦ record { file = some old; failed = true }
]

unfoldable pub close_stream : OutputStream → OutputStream
close_stream s = elim (s.file) [
  | none ↦ record { file = none; failed = true }
  | some old ↦ record { file = none; failed = s.failed }
]

unfoldable pub stream_is_open : OutputStream → Bool
stream_is_open s = elim (s.file) [ none ↦ false | some _ ↦ true ]

unfoldable pub close_all : OutputStreams → OutputStreams
close_all s = record {
  env_out = close_stream s.env_out;
  ssp_out = close_stream s.ssp_out;
  bty_out = close_stream s.bty_out;
  trc_out = close_stream s.trc_out;
  brc_out = close_stream s.brc_out;
}

module _ {ℓ} {D : Type ℓ} where
  -- The name of the files, without their extensions.
  unfoldable pub base_name : Libraries D → String → String → String → AdaptiveInfo D → String
  base_name lib dir now requestor info = lib.concat (
      dir
      ∷ "/"
      ∷ lib.file_part requestor
      ∷ "_"
      ∷ info.contact
      ∷ "_to_"
      ∷ info.ownship
      ∷ "_"
      ∷ now
      ∷ [])

  unfoldable pub open_all : Libraries D → (String → Bool) → String → OutputStreams → OutputStreams
  open_all lib can_open base s = record {
    env_out = open_stream can_open (lib.concat (base ∷ ".env" ∷ [])) s.env_out;
    ssp_out = open_stream can_open (lib.concat (base ∷ ".ssp" ∷ [])) s.ssp_out;
    bty_out = open_stream can_open (lib.concat (base ∷ ".bty" ∷ [])) s.bty_out;
    trc_out = open_stream can_open (lib.concat (base ∷ ".trc" ∷ [])) s.trc_out;
    brc_out = open_stream can_open (lib.concat (base ∷ ".brc" ∷ [])) s.brc_out;
  }

  -- What `<<` writes: nothing after a failure.
  unfoldable pub write_stream : OutputStream → List (Token D) → List (Act D)
  write_stream s ts = elim (s.file) [
    | none ↦ []
    | some name ↦ if s.failed then [] else written name ts ∷ []
  ]

  unfoldable pub write_all : OutputStreams → EnvFiles D → List (Act D)
  write_all s files =
      write_stream s.env_out files.os
      ++ (write_stream s.ssp_out files.ssp
          ++ (write_stream s.bty_out files.bty
              ++ (write_stream s.trc_out files.trc ++ write_stream s.brc_out files.brc)))

  -- The file that BELLHOP writes, and what is done with it.
  unfoldable pub bellhop_output : Libraries D → OutputType → String → String
  bellhop_output lib arrival_times base = lib.concat (base ∷ ".arr" ∷ [])
  bellhop_output lib eigenrays base = lib.concat (base ∷ ".ray" ∷ [])
  bellhop_output lib rays base = lib.concat (base ∷ ".ray" ∷ [])
  bellhop_output lib coherent_pressure base = lib.concat (base ∷ ".shd" ∷ [])
  bellhop_output lib incoherent_pressure base = lib.concat (base ∷ ".shd" ∷ [])
  bellhop_output lib semicoherent_pressure base = lib.concat (base ∷ ".shd" ∷ [])

  abbrev file_var : Libraries D → String → String → String
  file_var lib contact kind = lib.concat (lib.to_upper contact ∷ kind ∷ [])

  abbrev copy_shd : Libraries D → String → String → List (Act D)
  copy_shd lib dir file = system (lib.concat ("cp " ∷ file ∷ " " ∷ dir ∷ "/SHDFIL" ∷ [])) ∷ []

  unfoldable pub notify : Libraries D → OutputType → String → String → String → List (Act D)
  notify lib arrival_times contact dir file =
      publish_text (file_var lib contact "_ARR_FILE") file ∷ []
  notify lib eigenrays contact dir file = publish_text (file_var lib contact "_RAY_FILE") file ∷ []
  notify lib rays contact dir file = publish_text (file_var lib contact "_RAY_FILE") file ∷ []
  notify lib coherent_pressure contact dir file =
      publish_text (file_var lib contact "_SHD_FILE") file ∷ copy_shd lib dir file
  notify lib incoherent_pressure contact dir file =
      publish_text (file_var lib contact "_SHD_FILE") file ∷ copy_shd lib dir file
  notify lib semicoherent_pressure contact dir file =
      publish_text (file_var lib contact "_SHD_FILE") file ∷ copy_shd lib dir file

module _ {ℓ} {D : Type ℓ} ⦃d : Double D⦄ ⦃f : Cmath D⦄ where
  -- The part behind the check of the streams: the streams, the effects, and the output file.
  unfoldable pub run_bellhop :
      Libraries D
      → String
      → String
      → Environment D
      → OutputStreams
      → Option (OutputStreams × List (Act D) × String)
  run_bellhop lib dir base env s = elim (output_env env) [
    | undefined ↦ none
    | thrown ↦ some (s, [], "")
    | ok files ↦
        let file = bellhop_output lib env.output_type base in
        some (
          close_all s,
          write_all s files
              ++ system (lib.concat ("bellhop.exe " ∷ base ∷ []))
                ∷ notify lib env.output_type env.adaptive_info.contact dir file,
          file,
        )
  ]

  unfoldable pub calculate_env :
      Libraries D
      → (String → Bool)
      → String
      → String
      → String
      → Environment D
      → OutputStreams
      → Option (OutputStreams × List (Act D) × String)
  calculate_env lib can_open dir now requestor env s =
      let base = base_name lib dir now requestor env.adaptive_info in
      let opened = open_all lib can_open base s in
      if stream_is_open opened.env_out then run_bellhop lib dir base env opened else none

  -- `asc_file >> d`, as often as `n` says.
  unfoldable pub read_floats : ℕ → List D → Option (List D × List D)
  read_floats zero numbers = some ([], numbers)
  read_floats (suc n) [] = none
  read_floats (suc n) (x ∷ numbers) = do
    (xs, rest) ← read_floats n numbers
    some (f.to_float x ∷ xs, rest)

  -- The losses at a depth, from pairs of a real and an imaginary part.
  unfoldable pub read_losses : ℕ → List D → Option (List D × List D)
  read_losses zero numbers = some ([], numbers)
  read_losses (suc n) (re ∷ im ∷ numbers) = do
    (xs, rest) ← read_losses n numbers
    some (f.to_float (d.mul (f.neg (of_nat 20)) (f.log10 (f.hypot re im))) ∷ xs, rest)
  read_losses (suc n) [] = none
  read_losses (suc n) (re ∷ []) = none

  unfoldable pub read_matrix : ℕ → ℕ → List D → Option (List (List D))
  read_matrix zero num_ranges numbers = some []
  read_matrix (suc n) num_ranges numbers = do
    (row, rest) ← read_losses num_ranges numbers
    rows ← read_matrix n num_ranges rest
    some (row ∷ rows)

  -- `avg_intensity`
  unfoldable pub add_intensities : D → List D → D
  add_intensities acc [] = acc
  add_intensities acc (tl ∷ row) =
      add_intensities (d.add acc (f.pow (of_nat 10) (d.div tl (of_nat 10)))) row

  unfoldable pub averages : ℕ → List D → List (List D) → List (D × D)
  averages num_ranges (depth ∷ depths) (row ∷ rows) =
      (
        depth,
        d.mul (of_nat 10) (f.log10 (d.div (add_intensities (of_nat 0) row) (of_nat num_ranges))),
      )
      ∷ averages num_ranges depths rows
  averages num_ranges [] rows = []
  averages num_ranges (depth ∷ depths) [] = []

  -- The numbers behind the first two lines of the file: the depths, the ranges, the losses; the depths
  -- with their average losses are the result.
  unfoldable pub read_shd : List D → Option (List (D × D))
  read_shd (freq ∷ a ∷ b ∷ num_depths ∷ num_ranges ∷ x ∷ y ∷ z ∷ numbers) = do
    let n = pos_part (d.trunc num_depths)
    let m = pos_part (d.trunc num_ranges)
    (depths, rest) ← read_floats n numbers
    (ranges, rest') ← read_floats m rest
    rows ← read_matrix n m rest'
    some (averages m depths rows)
  read_shd _ = none
