-- ===== src/Manager/Examples.antt =====
-- A manager of one environment and two vehicles, over whole numbers.
use netsim.Prelude.{◌≡◌, refl, true, List, [], ◌∷◌, ◌++◌, map, none, some, All, flatten}
use netsim.Prelude.Int.{ℤ, pos, negsuc}
use netsim.Prelude.Floats.{int_double}
use netsim.Prelude.Maps.{lookup, contains, assign, int_key}
use netsim.Prelude.Text.{text_key}
use netsim.Manager.{
  SimEnvironmentPair, EnvironmentBounds, NavUpdate, receive_stats, response, NetSimManagerRequest,
  NetSimManager, add_bounds, add_pairs, process_configuration, process_request, out_of_region,
  env_nav_update, gps_line,
}
use netsim.Manager.Configuration.{IsBounded, process_configuration-IsBounded}
use netsim.Manager.Updates.{
  passed_on, accepted, answer, verdict, in_bounds, process_request-passed_on,
}

abbrev bay : EnvironmentBounds ℤ
bay = record {
  environment_id = pos 1;
  lat_min = pos 40;
  lon_min = negsuc 70;
  lat_max = pos 42;
  lon_max = negsuc 68;
  depth_min = pos 0;
  depth_max = pos 100;
}

abbrev vehicle : ℤ → SimEnvironmentPair
vehicle port = record {
  modem_tcp_port = port;
  endpoint_ip_address = 10 ∷ [];
  environment_id = pos 1;
}

abbrev pairs : List SimEnvironmentPair
pairs = vehicle (pos 62000) ∷ vehicle (pos 62001) ∷ []

abbrev configured : NetSimManager ℤ
configured = record {
  env_cfg = (pos 62000, vehicle (pos 62000)) ∷ (pos 62001, vehicle (pos 62001)) ∷ [];
  env_bounds = (pos 1, bay) ∷ [];
}

configures : process_configuration (bay ∷ []) pairs ≡ some configured
unfolding process_configuration add_bounds add_pairs contains assign
configures = refl

-- Without bounds the program ends.
unbounded : process_configuration {D = ℤ} [] pairs ≡ none
unfolding process_configuration add_bounds add_pairs contains
unbounded = refl

process_configuration-IsBounded_example :
    All (λ p. lookup p.modem_tcp_port configured.env_cfg ≡ some p) pairs
    × All (λ b. lookup b.environment_id configured.env_bounds ≡ some b) (bay ∷ [])
    × IsBounded configured
process_configuration-IsBounded_example =
    process_configuration-IsBounded (bay ∷ []) pairs configured configures

abbrev position : ℤ → NavUpdate ℤ
position lat = record {
  modem_tcp_port = pos 62000;
  lat = lat;
  lon = negsuc 69;
  depth = pos 5;
  speed = pos 0;
  heading = pos 0;
  is_initialized = true;
}

abbrev request : NetSimManagerRequest ℤ
request = record {
  id = pos 7;
  nav = position (pos 41) ∷ position (pos 50) ∷ position (pos 40) ∷ [];
  stats = (1 ∷ []) ∷ [];
}

process_request-passed_on_example :
    process_request request (10 ∷ []) configured
    ≡ some (
        flatten (map (passed_on configured) (accepted (10 ∷ []) configured (request.nav)))
        ++ map receive_stats (request.stats)
        ++ response (pos 7) (answer (10 ∷ []) configured (request.nav)) ∷ [])
process_request-passed_on_example =
    process_request-passed_on request (10 ∷ []) configured
      (process_configuration-IsBounded_example.2)

-- The second update is out of the region, so that the third one is dropped too.
second_refused :
    flatten (map (passed_on configured) (accepted (10 ∷ []) configured (request.nav)))
    ≡ env_nav_update (pos 1) (position (pos 41)) ∷ gps_line (position (pos 41)) ∷ []
unfolding passed_on accepted verdict in_bounds lookup out_of_region
second_refused = refl
