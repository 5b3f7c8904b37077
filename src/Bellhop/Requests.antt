-- ===== src/Bellhop/Requests.antt =====
-- src/apps/iBellhop/iBellhop.cpp: the start, and handle_request, which merges a request into the
-- environment, places the receivers, runs BELLHOP and answers.
pub mod Answers
use Prim.Native.String.{String}
use netsim.Prelude.{
  ◌>>=◌, ℕ, ◌*◌, ◌%◌, ◌^◌, Bool, true, false, not, ◌||◌, List, [], ◌∷◌, ◌++◌, Option, none, some,
  ltb, if◌then◌else◌,
}
use netsim.Prelude.Floats.{Double, Cmath, of_nat}
use netsim.Prelude.Maps.{string_key}
use netsim.Acoustics.{SspSample, WaterColumn, AdaptiveInfo, Environment}
use netsim.Bellhop.{Libraries, IBellhopConfig, IBellhop, Act}
use netsim.Bellhop.SoundSpeed.{equal, set_samples}
use netsim.Bellhop.Positions.{update_positions}
use netsim.Bellhop.Calculate.{calculate_env, read_shd}

pub data WaterColumnAction : Type 0 where
  merge_water_columns merge_samples overwrite : WaterColumnAction

pub record IBellhopRequest {ℓ} (D : Type ℓ) : Type ℓ where
  pub env : Environment D
  pub request_number : Option ℕ
  pub water_column_action : WaterColumnAction

-- `serialized` is whether the matrix of losses is in the response.
pub record IBellhopResponse {ℓ} (D : Type ℓ) : Type ℓ where
  pub success : Bool
  pub requestor : String
  pub env : Environment D
  pub output_file : Option String
  pub avg_tl : List (D × D)
  pub serialized : Bool
  pub request_number : Option ℕ

-- What a call of the operating system answers: whether a file can be opened, the canonical path of one
-- that exists, the numbers in the file ASCFIL if it is there; and the time, as a number and a text.
pub record System {ℓ} (D : Type ℓ) : Type ℓ where
  pub can_open : String → Bool
  pub canonical : String → Option String
  pub asc_file : Option (List D)
  pub moos_time : D
  pub time_text : String

module _ {ℓ} {D : Type ℓ} ⦃d : Double D⦄ ⦃f : Cmath D⦄ where
  -- The sorted first column of the configuration; `none` where the program refuses to start.
  unfoldable pub start_columns : Libraries D → List (WaterColumn D) → Option (List (WaterColumn D))
  start_columns lib [] = some []
  start_columns lib (c ∷ columns) = elim (lib.sort_samples c.sample) [
    | [] ↦ none
    | s ∷ samples ↦
        if not (equal s.depth (of_nat 0))
        then none
        else some (set_samples (s ∷ samples) (c ∷ columns))
  ]

  -- The samples of the first columns are merged, if there are both.
  unfoldable pub merge_first :
      Libraries D
      → Environment D
      → Environment D
      → List (WaterColumn D)
      → List (WaterColumn D)
      → Environment D × Environment D
  merge_first lib env req (c ∷ columns) (r ∷ _) = (
    record env { water_column = lib.merge_column c r ∷ columns },
    record req { water_column = [] },
  )
  merge_first lib env req (c ∷ columns) [] = (env, req)
  merge_first lib env req [] _ = (env, req)

  -- The environment and the request's, before they are merged.
  unfoldable pub before_merge :
      Libraries D
      → WaterColumnAction
      → Environment D
      → Environment D
      → Environment D × Environment D
  before_merge lib overwrite env req = (record env { water_column = [] }, req)
  before_merge lib merge_water_columns env req = (env, req)
  before_merge lib merge_samples env req =
      merge_first lib env req (env.water_column) (req.water_column)

  unfoldable pub lower_names : Libraries D → Environment D → Environment D
  lower_names lib env = record env {
    adaptive_info = record env.adaptive_info {
      contact = lib.to_lower env.adaptive_info.contact;
      ownship = lib.to_lower env.adaptive_info.ownship;
    };
  }

  unfoldable pub merged : Libraries D → Environment D → IBellhopRequest D → Environment D
  merged lib initial req =
      let (env, req_env) = before_merge lib req.water_column_action initial req.env in
      lower_names lib (lib.merge env req_env)

  -- The product of two unsigned numbers of 32 bits.
  unfoldable pub number_of_receivers : Environment D → ℕ
  number_of_receivers env = (env.receivers.number_in_depth * env.receivers.number_in_range) % 2 ^ 32

  unfoldable pub refusal : String → Environment D → IBellhopRequest D → IBellhopResponse D
  refusal source env req = record {
    success = false;
    requestor = source;
    env = env;
    output_file = none;
    avg_tl = [];
    serialized = false;
    request_number = req.request_number;
  }

  -- read_shd, if it is asked for: nothing is read if the file is not there.
  unfoldable pub losses : System D → AdaptiveInfo D → Option (List (D × D) × Bool)
  losses os info =
      if info.read_shd
      then elim (os.asc_file) [
        | none ↦ some ([], false)
        | some numbers ↦ read_shd numbers >>= λ avg. some (avg, info.full_shd_matrix)
      ]
      else some ([], false)

  -- The response to a request that was calculated.
  unfoldable pub response_to :
      System D
      → String
      → IBellhopRequest D
      → Environment D
      → String
      → List (D × D)
      → Bool
      → IBellhopResponse D
  response_to os source req env file avg serialized = record {
    success = true;
    requestor = source;
    env = env;
    output_file = some (elim (os.canonical file) [ none ↦ file | some path ↦ path ]);
    avg_tl = avg;
    serialized = serialized;
    request_number = req.request_number;
  }

  -- The run of BELLHOP for an environment, and the response.
  unfoldable pub run_request :
      Libraries D
      → System D
      → String
      → IBellhopRequest D
      → Environment D
      → IBellhop D
      → Option (IBellhop D × List (Act D) × IBellhopResponse D)
  run_request lib os source req env s = do
    (streams, out, file) ←
        calculate_env lib os.can_open s.cfg.output_env_dir os.time_text source env s.streams
    (avg, serialized) ← losses os env.adaptive_info
    some (record s { streams = streams }, out, response_to os source req env file avg serialized)

  -- The state, what is published and done before the response, and the response.
  unfoldable pub handle_request :
      Libraries D
      → System D
      → String
      → IBellhopRequest D
      → IBellhop D
      → Option (IBellhop D × List (Act D) × IBellhopResponse D)
  handle_request lib os source req s =
      let env = merged lib s.cfg.initial_env req in
      if ltb s.cfg.max_number_of_receivers (number_of_receivers env)
      then some (s, [], refusal source env req)
      else (let (known, env', published) = update_positions lib os.moos_time s env in
          if not known
          then some (s, published, refusal source env' req)
          else (run_request lib os source req env' s >>= λ r. some (r.0, published ++ r.1, r.2)))
