-- ===== src/Core/Jack/Setup/Examples.antt =====
-- An instance with the modems 2 and 3 of four, on channels 1 and 2 of the sound card.
use mathlib.Core.List.{Mem}
use netsim.Prelude.{ℕ, ◌-◌, ◌≡◌, refl, true, false, [], ◌∷◌, ◌++◌, none, some, get_elem?}
use netsim.Prelude.Int.{ℤ, pos}
use netsim.Prelude.Text.{nat_text, int_text, digits}
use netsim.Core.Network.{first_modem_index, local_number_of_modems, is_local}
use netsim.Core.Jack.Setup.{
  JackServer, ConnectionConfig, subscribed, set_callbacks, activated, connected, registered,
  JackPorts, input_port_name, output_port_name, playback_port_name, subscribe_out, connect_input,
  connect_outputs, joined, connect_playback, setup,
}
use netsim.Core.Jack.Setup.Channels.{setup-channel}

abbrev server : JackServer
server = record {
  client_open = λ name server. true;
  sample_rate = 96000;
  activate = true;
  has_capture_ports = true;
  has_playback_ports = true;
  port_register = λ name. true;
  connect = λ source destination. true;
}

abbrev cfg : ConnectionConfig
cfg = record {
  core = record { number_of_modems = 4; bridge = some (2, 2) };
  sampling_freq = 96000;
  server_name = none;
  capture_port_prefix = b'c' ∷ [];
  playback_port_prefix = b'p' ∷ [];
  port_name_starting_index = pos 1;
}

abbrev empty : JackPorts
empty = record { input_port = none; output_port = []; steps = [] }

unfoldable thread : ℕ → JackPorts
unfolding setup
thread k = elim (setup 16 server cfg k) [ none ↦ empty | some a ↦ a ]

returns_3 : setup 16 server cfg 3 ≡ some (thread 3)
unfolding thread setup connect_playback connect_outputs connect_input first_modem_index
    local_number_of_modems is_local
returns_3 = refl

returns_0 : setup 16 server cfg 0 ≡ some (thread 0)
unfolding thread setup connect_playback connect_outputs connect_input first_modem_index
    local_number_of_modems is_local
returns_0 = refl

-- The thread of a modem of another instance only plays.
plays :
    setup 2 server cfg 0
    ≡ some (record {
      input_port = none;
      output_port = output_port_name 2 ∷ output_port_name 3 ∷ [];
      steps =
          subscribed 0 0
          ∷ subscribed 0 1
          ∷ set_callbacks
          ∷ activated
          ∷ registered (output_port_name 2)
          ∷ connected (output_port_name 2) (b'p' ∷ b'1' ∷ [])
          ∷ registered (output_port_name 3)
          ∷ connected (output_port_name 3) (b'p' ∷ b'2' ∷ [])
          ∷ [];
    })
unfolding setup connect_playback connect_outputs connect_input first_modem_index
    local_number_of_modems is_local joined subscribe_out playback_port_name int_text nat_text digits
plays = refl

-- Without a port for capturing the program ends.
ends : setup 16 (record server { has_capture_ports = false }) cfg 3 ≡ none
unfolding setup connect_input is_local first_modem_index local_number_of_modems
ends = refl

setup-channel_example :
    (channel : ℤ) × ((thread 3).input_port ≡ some (input_port_name 3))
    × Mem (connected (b'c' ∷ [] ++ int_text channel) (input_port_name 3)) (thread 3).steps
    × (get_elem? (thread 0).output_port (3 - first_modem_index cfg.core)
        ≡ some (output_port_name 3))
    × Mem (connected (output_port_name 3) (b'p' ∷ [] ++ int_text channel)) (thread 0).steps
unfolding is_local first_modem_index local_number_of_modems
setup-channel_example =
    setup-channel 16 cfg server server 3 0 (thread 3) (thread 0) refl returns_3 returns_0
