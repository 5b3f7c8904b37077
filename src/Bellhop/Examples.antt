-- ===== src/Bellhop/Examples.antt =====
-- The ocean with two water columns, a library that knows the few texts that occur, and its ship AUV.
use Prim.Native.String as NString
use Prim.Native.String.{String}
use netsim.Prelude.{
  ◌≡◌, ◌⊎◌, refl, Bool, true, false, List, [], ◌∷◌, ◌++◌, length, none, some, if◌then◌else◌, any,
  arith,
}
use netsim.Prelude.Int.{ℤ, pos, leb_ℤ}
use netsim.Prelude.Floats.{int_double, int_cmath, int_ranked}
use netsim.Prelude.Maps.{lookup, assign, string_key}
use netsim.Acoustics.{SspSample, Environment}
use netsim.Acoustics.Ocean.{ocean, shallow, deep, sample_at}
use netsim.Bellhop.{
  Act, Libraries, IBellhop, OutputStream, own_report, handle_nav_x, handle_nav_y, report,
}
use netsim.Acoustics.Profile.{
  ok, k_bathy_max, back, depth_ssp_map, add_samples, assign_depth, add_eofs,
}
use netsim.Acoustics.EnvFile.{
  EnvFiles, files_with, output_env, column_char, interpolation_char, write_env, write_files,
}
use netsim.Bellhop.Positions.{update_positions}
use netsim.Bellhop.Positions.Ranges.{Outcome, update_positions_lem}
use netsim.Bellhop.Positions.Names.{nav_x, nav_y, handle_nav, handle_navs, handle_navs-unknown}
use netsim.Bellhop.Calculate.Streams.{AllClosed}
use netsim.Bellhop.Requests.{
  System, IBellhopRequest, IBellhopResponse, overwrite, merged, handle_request, before_merge,
  lower_names,
}
use netsim.Bellhop.Requests.Answers.{Answered, handle_request_lem}
use netsim.Bellhop.SoundSpeed.{values, with_samples, first_column, handle_ssp_update, get_ssp_value}
use netsim.Bellhop.SoundSpeed.Sorting.{IsSorted, insertion_sort, insertion_sort-Sorts}
use netsim.Bellhop.SoundSpeed.Depths.{HasDistinctDepths, found_at, number_at}
use netsim.Bellhop.SoundSpeed.Updates.{given, handle_ssp_update_lem}
use netsim.Bellhop.SoundSpeed.Interpolation.{Neighbours, linear, get_ssp_value_lem}

abbrev is : String → String → Bool
is a b = string_key.eqb a b

abbrev number_of : String → ℤ
number_of s =
    if is s "10"
    then pos 10
    else if is s "1500"
    then pos 1500
    else if is s "1510"
    then pos 1510
    else pos 0

abbrev concat_all : List String → String
concat_all [] = ""
concat_all (s ∷ ss) = NString.◌++◌ s (concat_all ss)

abbrev lib : Libraries ℤ
lib = record {
  val_from_string =
      λ s key. if is key "depth" then some "depths" else if is key "c" then some "speeds" else none;
  split = λ s. if is s "depths" then "0" ∷ "10" ∷ "10" ∷ [] else "1500" ∷ "0" ∷ "1510" ∷ [];
  as_double = number_of;
  to_lower = λ s. if is s "AUV" then "auv" else s;
  to_upper = λ s. s;
  file_part = λ s. s;
  concat = concat_all;
  merge = λ env req. record env { receivers = req.receivers; adaptive_info = req.adaptive_info };
  merge_column = λ c r. record c { sample = c.sample ++ r.sample };
  sort_samples = insertion_sort;
}

abbrev closed_stream : OutputStream
closed_stream = record { file = none; failed = false }

abbrev sea : Environment ℤ
sea = record ocean { adaptive_info = record ocean.adaptive_info { ownship = "AUV" } }

abbrev ship : IBellhop ℤ
ship = record {
  cfg = record {
    initial_env = sea;
    moos_var_response = "BELLHOP_RESPONSE";
    output_env_dir = "/tmp";
    extrapolate_nav = false;
    local_sound_speed_var = none;
    max_number_of_receivers = 100;
  };
  node_reports = [];
  streams = record {
    env_out = closed_stream;
    ssp_out = closed_stream;
    bty_out = closed_stream;
    trc_out = closed_stream;
    brc_out = closed_stream;
  };
}

first_shallow : first_column sea ≡ some shallow
unfolding first_column
first_shallow = refl

same_number : length (values lib "AVG_SS_VEC" "depth") ≡ length (values lib "AVG_SS_VEC" "c")
unfolding values
same_number = refl

distinct_shallow : HasDistinctDepths shallow.sample
unfolding number_at
distinct_shallow q = ground arith

handle_ssp_update_lem_example :
    (samples : List (SspSample ℤ)) × (handle_ssp_update lib "AVG_SS_VEC" ship
      ≡ some (with_samples samples ship))
    × IsSorted samples
    × HasDistinctDepths samples
    × ((q : ℤ)
        → found_at q samples
          ≡ given lib
              (values lib "AVG_SS_VEC" "depth")
              (values lib "AVG_SS_VEC" "c")
              q
              (found_at q shallow.sample))
handle_ssp_update_lem_example =
    handle_ssp_update_lem int_ranked lib "AVG_SS_VEC" ship shallow (insertion_sort-Sorts int_ranked)
      distinct_shallow first_shallow same_number

-- The second speed for the depth 10 is 0, which counts as none, and the third one is taken.
given_speeds :
    given lib
      (values lib "AVG_SS_VEC" "depth")
      (values lib "AVG_SS_VEC" "c")
      (pos 10)
      (some (pos 1490, pos 3 ∷ []))
    ≡ some (pos 1510, pos 0 ∷ [])
unfolding given values
given_speeds = refl

total_int : (a b : ℤ) → leb_ℤ a b ≡ false → leb_ℤ b a ≡ true
total_int a b h = ground arith

get_ssp_value_lem_example :
    ((up : SspSample ℤ) × (dn : SspSample ℤ) × Neighbours up dn shallow.sample
      × (leb_ℤ up.depth (pos 5) ≡ true)
      × (leb_ℤ (pos 5) dn.depth ≡ true)
      × (get_ssp_value sea (pos 5) ≡ some (linear shallow.eof_coef (pos 5) up dn)))
    ⊎ ((any (λ (t : SspSample ℤ). leb_ℤ (pos 5) t.depth) (sample_at 15 1510 ∷ []) ≡ false)
        × (get_ssp_value sea (pos 5) ≡ some (pos 0)))
get_ssp_value_lem_example =
    get_ssp_value_lem sea (pos 5) 1 shallow (sample_at 0 1500) (sample_at 15 1510 ∷ [])
      first_shallow refl total_int (refl, (refl, tt)) refl

abbrev adaptive : Environment ℤ
adaptive = record sea {
  adaptive_info = record sea.adaptive_info {
    contact = "buoy";
    ownship = "auv";
    auto_receiver_ranges = true;
  };
}

update_positions_lem_example : Outcome ship adaptive (update_positions lib (pos 0) ship adaptive)
update_positions_lem_example = update_positions_lem lib (pos 0) ship adaptive total_int refl

abbrev moved : IBellhop ℤ
moved = record ship {
  node_reports =
      (
        "AUV",
        record {
          time = pos 9;
          x = pos 3;
          y = pos 4;
          depth = pos 0;
          speed = pos 0;
          heading = pos 0;
        },
      )
      ∷ [];
}

navs : handle_navs (nav_x (pos 3) (pos 9) ∷ nav_y (pos 4) ∷ []) ship ≡ some moved
unfolding handle_navs handle_nav handle_nav_x handle_nav_y own_report report lookup assign
navs = refl

nothing : lookup "auv" ship.node_reports ≡ none
unfolding lookup
nothing = refl

handle_navs-unknown_example : update_positions lib (pos 0) moved adaptive ≡ (false, adaptive, [])
handle_navs-unknown_example =
    handle_navs-unknown lib (pos 0) (nav_x (pos 3) (pos 9) ∷ nav_y (pos 4) ∷ []) ship moved adaptive
      refl refl refl nothing navs

-- One column, and two that are not aligned.
abbrev flat : Environment ℤ
flat = record sea { water_column = deep ∷ [] }

abbrev uneven : Environment ℤ
uneven = record sea {
  water_column = record shallow { sample = sample_at 7 1500 ∷ sample_at 15 1510 ∷ [] } ∷ deep ∷ [];
}

abbrev flat_files : EnvFiles ℤ
flat_files =
    files_with flat "S" deep (pos 20)
      ((pos 0, pos 1492) ∷ (pos 10, pos 1497) ∷ (pos 20, pos 1502) ∷ []) [] []

closed_streams : AllClosed ship.streams
closed_streams = (refl, refl, refl, refl, refl)

abbrev os : System ℤ
os = record {
  can_open = λ _. true;
  canonical = λ _. none;
  asc_file = none;
  moos_time = pos 0;
  time_text = "1";
}

abbrev lowered : Environment ℤ
lowered = record flat { adaptive_info = record flat.adaptive_info { ownship = "auv" } }

abbrev request : IBellhopRequest ℤ
request = record { env = lowered; request_number = some 4; water_column_action = overwrite }

-- The request takes the place of the water column.
abbrev plain_lib : Libraries ℤ
plain_lib = record lib { merge = λ env req. req }

placed_ok :
    output_env (update_positions plain_lib (pos 0) ship (merged plain_lib sea request)).1
    ≡ ok (
        files_with lowered "S" deep
          (pos 20)
          ((pos 0, pos 1492) ∷ (pos 10, pos 1497) ∷ (pos 20, pos 1502) ∷ [])
          []
          [])
unfolding update_positions merged before_merge lower_names output_env column_char interpolation_char
    k_bathy_max write_env write_files back depth_ssp_map add_samples assign_depth add_eofs
placed_ok = refl

not_read :
    (update_positions plain_lib
      (pos 0)
      ship
      (merged plain_lib sea request)).1.adaptive_info.read_shd
    ≡ false
unfolding update_positions merged before_merge lower_names
not_read = refl

handle_request_lem_example :
    (s' : IBellhop ℤ) × (out : List (Act ℤ)) × (r : IBellhopResponse ℤ) × (handle_request plain_lib
        os "a" request ship
      ≡ some (s', out, r))
    × Answered plain_lib os "a" request
        (merged plain_lib sea request)
        ship
        (update_positions plain_lib (pos 0) ship (merged plain_lib sea request))
        s'
        out
        r
handle_request_lem_example =
    handle_request_lem plain_lib os "a" request ship (λ _. refl) closed_streams
      (λ e. cc (placed_ok, e)) not_read
