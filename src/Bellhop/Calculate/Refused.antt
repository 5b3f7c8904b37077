-- ===== src/Bellhop/Calculate/Refused.antt =====
-- src/apps/iBellhop/iBellhop.cpp, calculate_env: the streams from one request to the next.
use Prim.Native.String.{String}
use netsim.Prelude.{◌≡◌, refl, ap, ◌∙◌, Bool, true, List, [], ◌∷◌, ◌++◌, some, All}
use netsim.Prelude.Floats.{Double, Cmath}
use netsim.Acoustics.{Environment}
use netsim.Acoustics.Profile.{ok, thrown}
use netsim.Acoustics.EnvFile.{EnvFiles, output_env}
use netsim.Bellhop.{Libraries, OutputStreams, Act, written, system}
use netsim.Bellhop.Calculate.{
  stream_is_open, close_all, base_name, write_all, bellhop_output, notify, run_bellhop,
  calculate_env,
}
use netsim.Bellhop.Calculate.Streams.{
  AllClosed, IsQuiet, close_all-AllClosed, fresh, open_all-closed, write_all-fresh, notify-IsQuiet,
}

module _ {ℓ} {D : Type ℓ} ⦃d : Double D⦄ ⦃f : Cmath D⦄ (lib : Libraries D)
    (can_open : String → Bool) where
  -- The run of BELLHOP and what follows.
  abbrev pub after : (dir base : String) → Environment D → List (Act D)
  after dir base env =
      system (lib.concat ("bellhop.exe " ∷ base ∷ []))
      ∷ notify lib env.output_type env.adaptive_info.contact dir
          (bellhop_output lib env.output_type base)

  pub run_bellhop-ok :
      (dir base : String) (env : Environment D) (s : OutputStreams) (files : EnvFiles D)
      → output_env env ≡ ok files
      → run_bellhop lib dir base env s
        ≡ some (
          close_all s,
          write_all s files
              ++ system (lib.concat ("bellhop.exe " ∷ base ∷ []))
                ∷ notify lib env.output_type env.adaptive_info.contact dir
                    (bellhop_output lib env.output_type base),
          bellhop_output lib env.output_type base,
        )
  unfolding run_bellhop
  run_bellhop-ok dir base env s files e = rw (e, run_bellhop) refl

  pub run_bellhop-thrown :
      (dir base : String) (env : Environment D) (s : OutputStreams)
      → output_env env ≡ thrown
      → run_bellhop lib dir base env s ≡ some (s, [], "")
  unfolding run_bellhop
  run_bellhop-thrown dir base env s e = rw (e, run_bellhop) refl

  -- From streams that are closed, if files can be opened, and output_env returns, the five files are
  -- written under one name, BELLHOP is run on them, and all streams are closed again.
  pub calculate_env_lem :
      (dir now requestor : String) (env : Environment D) (s : OutputStreams) (files : EnvFiles D)
      → ((n : String) → can_open n ≡ true)
      → AllClosed s
      → output_env env ≡ ok files
      → let base = base_name lib dir now requestor env.adaptive_info in
        (s' : OutputStreams) × (tail : List (Act D)) × (calculate_env lib can_open dir now requestor
            env s
          ≡ some (
            s',
            written (lib.concat (base ∷ ".env" ∷ [])) files.os
                ∷ written (lib.concat (base ∷ ".ssp" ∷ [])) files.ssp
                ∷ written (lib.concat (base ∷ ".bty" ∷ [])) files.bty
                ∷ written (lib.concat (base ∷ ".trc" ∷ [])) files.trc
                ∷ written (lib.concat (base ∷ ".brc" ∷ [])) files.brc
                ∷ system (lib.concat ("bellhop.exe " ∷ base ∷ []))
                ∷ tail,
            bellhop_output lib env.output_type base,
          ))
        × All IsQuiet tail
        × AllClosed s'
  unfolding calculate_env stream_is_open
  calculate_env_lem dir now requestor env s files can closed e =
      let base = base_name lib dir now requestor env.adaptive_info in
      (
        close_all (fresh lib can_open base),
        notify lib env.output_type env.adaptive_info.contact dir
            (bellhop_output lib env.output_type base),
        rw (open_all-closed lib can_open can base s closed) (
            run_bellhop-ok dir base env (fresh lib can_open base) files e
            ∙ ap
                (λ w. some (
                  close_all (fresh lib can_open base),
                  w ++ after dir base env,
                  bellhop_output lib env.output_type base,
                ))
                (write_all-fresh lib can_open base files)),
        notify-IsQuiet lib can_open env.output_type env.adaptive_info.contact dir
            (bellhop_output lib env.output_type base),
        close_all-AllClosed (fresh lib can_open base),
      )
