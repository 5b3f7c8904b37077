-- ===== src/Tool/Examples.antt =====
-- A grid of two columns and two rows, with slots of one second: half a slot is 5 loops, and two slots
-- are 20.
use netsim.Prelude.{
  ℕ, ◌+◌, ◌*◌, ◌++◌, List, length, ◌≡◌, refl, true, false, [], ◌∷◌, none, some, arith,
}
use netsim.Prelude.Int.{ℤ, pos, negsuc}
use netsim.Prelude.Floats.{int_double}
use netsim.Tool.{
  ToolConfig, NetSimTool, Action, source_position, construct, init, ready, add_int, next_row,
  advance, publish_stats, update_receiver_position, transmission_due, half_slot, two_slots, loop,
  run, receiver_position, rx_stats, transmit, quit,
}
use netsim.Tool.Timing.{HasDeadlines, at}
use netsim.Tool.Advance.{Grid, configured, moved_to, transmitted, ended, route}
use netsim.Tool.Route.{columns, rows, upto, row_route, rows_route}
use netsim.Tool.Termination.{run-ends}

abbrev cfg : ToolConfig ℤ
cfg = record {
  r_min = pos 100;
  r_max = pos 200;
  dr = pos 100;
  z_min = pos 10;
  z_max = pos 20;
  dz = pos 10;
  slot_seconds = pos 1;
  loop_frequency_hertz = pos 10;
}

deadlines : HasDeadlines cfg 5 20
unfolding HasDeadlines half_slot two_slots
deadlines n h = (ground arith, ground arith)

abbrev started : NetSimTool ℕ
started = record {
  r = pos 200;
  z = pos 10;
  last_r = pos 100;
  last_z = pos 10;
  loops_since_last_transmission = 1;
  drivers_ready = 2;
  run_complete = false;
  request_id = 2;
  previous_stats = some 7;
}

sent :
    run cfg true 20 started
    ≡ some (
      record {
        r = pos 100;
        z = pos 20;
        last_r = pos 200;
        last_z = pos 10;
        loops_since_last_transmission = 1;
        drivers_ready = 2;
        run_complete = false;
        request_id = 3;
        previous_stats = none;
      },
      receiver_position 2 (pos 200) (pos 10) ∷ rx_stats (some 7) (pos 100) (pos 10) ∷ transmit ∷ [],
    )
unfolding run loop half_slot two_slots update_receiver_position transmission_due publish_stats
    advance next_row add_int
sent = refl

-- Before both drivers are ready nothing happens.
abbrev one_ready : NetSimTool ℕ
one_ready = record started { drivers_ready = 1 }

waits : run cfg true 3 one_ready ≡ some (one_ready, [])
unfolding run loop
waits = refl

abbrev done : NetSimTool ℕ
done = record started { drivers_ready = 2; run_complete = true; loops_since_last_transmission = 19 }

-- After the last point its statistics are published, and the tool ends.
ends :
    loop cfg true (at 20 done)
    ≡ some (
      record (at 20 done) { previous_stats = none },
      rx_stats (some 7) (pos 100) (pos 10) ∷ quit ∷ [],
    )
unfolding loop half_slot two_slots transmission_due publish_stats
ends = refl

starts : ready (ready (init {S = ℕ} cfg)) ≡ record {
  r = pos 100;
  z = pos 10;
  last_r = negsuc 0;
  last_z = negsuc 0;
  loops_since_last_transmission = 0;
  drivers_ready = 2;
  run_complete = false;
  request_id = 0;
  previous_stats = none;
}
unfolding ready init
starts = refl

abbrev grid : Grid
grid = record {
  r_first = 100;
  r_last = 250;
  r_step = 100;
  z_first = 10;
  z_last = 20;
  z_step = 10;
  r_moves = omega arith;
  z_moves = omega arith;
  r_bound = omega arith;
  z_bound = omega arith;
}

grid_deadlines : HasDeadlines (configured grid (pos 1) (pos 10)) 5 20
unfolding HasDeadlines half_slot two_slots configured
grid_deadlines n h = (ground arith, ground arith)

run-ends_example :
    let started =
      record (ready (ready (construct {S = ℕ} (configured grid (pos 1) (pos 10)) true).0)) {
        request_id = 2;
        previous_stats = some 7;
      } in
    (s : NetSimTool ℕ) × (out : List (Action ℕ)) × (run
        (configured grid (pos 1) (pos 10))
        true
        (1 + length (rows grid) * (length (columns grid) * 20) + 20)
        started
      ≡ some (s, out))
    × (route out ≡ rows_route (columns grid) (rows grid) ++ ended ∷ [])
run-ends_example =
    run-ends grid (pos 1) (pos 10) 5 20 grid_deadlines (omega arith) (omega arith) 2 (some 7)
      (omega arith) (omega arith)

four_points :
    rows_route (columns grid) (rows grid)
    ≡ moved_to (pos 100) (pos 10)
      ∷ transmitted
      ∷ moved_to (pos 200) (pos 10)
      ∷ transmitted
      ∷ moved_to (pos 100) (pos 20)
      ∷ transmitted
      ∷ moved_to (pos 200) (pos 20)
      ∷ transmitted
      ∷ []
unfolding rows_route columns rows upto row_route
four_points = refl

-- The constructor's two requests; but for the number of the next one the state is as above.
constructs : construct {S = ℕ} cfg true ≡ (
  record (init cfg) { request_id = 2 },
  source_position 0 ∷ receiver_position 1 (pos 100) (pos 10) ∷ [],
)
unfolding construct init update_receiver_position
constructs = refl
