-- ===== src/Bellhop/Requests/Answers.antt =====
-- src/apps/iBellhop/iBellhop.cpp, handle_request: which requests are answered with success.
use Prim.Native.String.{String}
use netsim.Prelude.{
  ◌>>=◌, ◌*◌, ◌%◌, ◌^◌, ◌<◌, ◌≤◌, none, ◌≡◌, refl, ap, ◌∙◌, ◌⊎◌, inl, inr, Bool, true, false, not,
  List, [], ◌++◌, some, Option, ltb, if◌then◌else◌, if-true, if-false, Bool-cases, arith,
}
use netsim.Prelude.Floats.{Double, Cmath}
use netsim.Acoustics.{Environment}
use netsim.Acoustics.Profile.{Result, ok, thrown, undefined}
use netsim.Acoustics.EnvFile.{EnvFiles, output_env}
use netsim.Bellhop.{Libraries, IBellhop, OutputStreams, Act}
use netsim.Bellhop.Positions.{update_positions}
use netsim.Bellhop.Calculate.{calculate_env, base_name, stream_is_open, run_bellhop}
use netsim.Bellhop.Calculate.Streams.{AllClosed, fresh, open_all-closed}
use netsim.Bellhop.Calculate.Refused.{run_bellhop-ok, run_bellhop-thrown}
use netsim.Bellhop.Requests.{
  IBellhopRequest, IBellhopResponse, System, merged, number_of_receivers, refusal, losses,
  response_to, run_request, handle_request,
}

module _ {ℓ} {D : Type ℓ} ⦃d : Double D⦄ ⦃f : Cmath D⦄ (lib : Libraries D) (os : System D) where
  run_bellhop-returns :
      (dir base : String) (env : Environment D) (s : OutputStreams)
      → (output_env env ≡ undefined → ⊥)
      → (p : OutputStreams × List (Act D) × String) × (run_bellhop lib dir base env s ≡ some p)
  run_bellhop-returns dir base env s h = by_result (output_env env) refl
    where
      by_result :
          (r : Result (EnvFiles D))
          → output_env env ≡ r
          → (p : OutputStreams × List (Act D) × String) × (run_bellhop lib dir base env s ≡ some p)
      by_result (ok files) e = (_, run_bellhop-ok lib os.can_open dir base env s files e)
      by_result thrown e = (_, run_bellhop-thrown lib os.can_open dir base env s e)
      by_result undefined e = absurd (h e)

  calculate_env-returns :
      (dir now source : String) (env : Environment D) (s : OutputStreams)
      → ((n : String) → os.can_open n ≡ true)
      → AllClosed s
      → (output_env env ≡ undefined → ⊥)
      → (p : OutputStreams × List (Act D) × String) × (calculate_env lib os.can_open dir now source
            env s
          ≡ some p)
  unfolding calculate_env stream_is_open
  calculate_env-returns dir now source env s can closed h =
      let base = base_name lib dir now source env.adaptive_info in
      let (p, e) = run_bellhop-returns dir base env (fresh lib os.can_open base) h in
      (p, rw (open_all-closed lib os.can_open can base s closed) e)

  -- How the code answers: with the number of receivers above the maximum, with the positions not known,
  -- and with a file.
  unfoldable pub Answered :
      String
      → IBellhopRequest D
      → Environment D
      → IBellhop D
      → Bool × Environment D × List (Act D)
      → IBellhop D
      → List (Act D)
      → IBellhopResponse D
      → Type ℓ
  Answered source req env s placed s' out r =
      let n = env.receivers.number_in_depth * env.receivers.number_in_range % 2 ^ 32 in
      let most = s.cfg.max_number_of_receivers in
      (r.requestor ≡ source)
      × (r.request_number ≡ req.request_number)
      × (((most < n) × (r.success ≡ false) × (r.env ≡ env) × (s' ≡ s) × (out ≡ []))
          ⊎ ((n ≤ most)
              × (placed.0 ≡ false)
              × (r.success ≡ false)
              × (r.env ≡ placed.1)
              × (s' ≡ s)
              × (out ≡ placed.2))
          ⊎ ((n ≤ most)
              × (placed.0 ≡ true)
              × (r.success ≡ true)
              × (r.env ≡ placed.1)
              × ((streams : OutputStreams) × (acts : List (Act D)) × (file : String)
                  × (calculate_env lib os.can_open s.cfg.output_env_dir os.time_text source placed.1
                        s.streams
                      ≡ some (streams, acts, file))
                  × (s' ≡ record s { streams = streams })
                  × (out ≡ placed.2 ++ acts)
                  × (r.output_file
                      ≡ some (elim (os.canonical file) [ none ↦ file | some path ↦ path ])))))

  run_request-returns :
      (source : String) (req : IBellhopRequest D) (env : Environment D) (s : IBellhop D)
      (streams : OutputStreams) (acts : List (Act D)) (file : String)
      → calculate_env lib os.can_open s.cfg.output_env_dir os.time_text source env s.streams
        ≡ some (streams, acts, file)
      → env.adaptive_info.read_shd ≡ false
      → run_request lib os source req env s
        ≡ some (record s { streams = streams }, acts, response_to os source req env file [] false)
  unfolding run_request losses
  run_request-returns source req env s streams acts file e quiet = rw e (rw quiet refl)

  -- With files that can be opened, streams that are closed and an environment for which output_env does
  -- nothing undefined and no losses are to be read, a request is always answered, to its sender and
  -- with its number. If the number of receivers, which wraps around at 2 ^ 32, is above the maximum, it
  -- is answered without success and nothing is done; if the positions are not known, without success
  -- after what was published; otherwise with success and the name of the file that the
  -- calculation returned, after what was published and done, also where output_env throws and
  -- nothing is calculated. The answer holds the environment of the stage that was reached, and
  -- nothing of the state but the streams changes.
  pub handle_request_lem :
      (source : String) (req : IBellhopRequest D) (s : IBellhop D)
      → ((n : String) → os.can_open n ≡ true)
      → AllClosed s.streams
      → let env = merged lib s.cfg.initial_env req in
        let placed = update_positions lib os.moos_time s env in
        (output_env placed.1 ≡ undefined → ⊥)
        → placed.1.adaptive_info.read_shd ≡ false
        → (s' : IBellhop D) × (out : List (Act D)) × (r : IBellhopResponse D) × (handle_request lib
              os source req s
            ≡ some (s', out, r))
          × Answered source req env s placed s' out r
  unfolding handle_request refusal Answered number_of_receivers response_to
  handle_request_lem source req s can closed h quiet =
      let env = merged lib s.cfg.initial_env req in
      let most = s.cfg.max_number_of_receivers in
      let n = number_of_receivers env in
      let placed = update_positions lib os.moos_time s env in
      let rest : Option (IBellhop D × List (Act D) × IBellhopResponse D) =
        (if not placed.0
          then some (s, placed.2, refusal source placed.1 req)
          else (run_request lib os source req placed.1 s >>= λ r.
              some (r.0, placed.2 ++ r.1, r.2))) in
      elim (Bool-cases (ltb most n)) [
        | inl many ↦ (
          s,
          [],
          refusal source env req,
          if-true (ltb most n) _ rest many,
          (refl, refl, inl (ground (arith, many), refl, refl, refl, refl)),
        )
        | inr few ↦ elim (Bool-cases placed.0) [
          | inr unknown ↦ (
            s,
            placed.2,
            refusal source placed.1 req,
            if-false (ltb most n) (some (s, [], refusal source env req)) rest few
                ∙ if-true (not placed.0) _ _ (ap not unknown),
            (refl, refl, inr (inl (ground (arith, few), unknown, refl, refl, refl, refl))),
          )
          | inl known ↦
              let ((streams, acts, file), e) =
                calculate_env-returns s.cfg.output_env_dir os.time_text source placed.1 s.streams
                  can closed h in
              (
                record s { streams = streams },
                placed.2 ++ acts,
                response_to os source req placed.1 file [] false,
                if-false (ltb most n) (some (s, [], refusal source env req)) rest few
                    ∙ (if-false (not placed.0) (some (s, placed.2, refusal source placed.1 req))
                          (run_request lib os source req placed.1 s >>= λ r.
                            some (r.0, placed.2 ++ r.1, r.2))
                          (ap not known)
                        ∙ ap (λ o. o >>= λ r. some (r.0, placed.2 ++ r.1, r.2))
                            (run_request-returns source req placed.1 s streams acts file e quiet)),
                (
                  refl,
                  refl,
                  inr (
                      inr (
                        ground (arith, few),
                        known,
                        refl,
                        refl,
                        (streams, acts, file, e, refl, refl, refl),
                      )),
                ),
              )
        ]
      ]
