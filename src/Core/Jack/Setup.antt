-- ===== src/Core/Jack/Setup.antt =====
-- src/apps/netsim_core/jack_thread.h: the constructor of `JackThread`, which connects the ports. The JACK
-- server is a parameter; `none` is the end of the program.
-- The client's own ports are named without the name of the client, which the server puts in front.
pub mod Channels
mod Examples
use netsim.Prelude.{
  ℕ, zero, suc, ◌+◌, ◌==◌, Bool, true, false, List, [], ◌∷◌, ◌++◌, Option, none, some, ltb,
  if◌then◌else◌, ◌>>=◌,
}
use netsim.Prelude.Int.{ℤ, pos, ◌+ℤ◌, ◌-ℤ◌}
use netsim.Prelude.Text.{Text, nat_text, int_text}
use netsim.Core.Network.{CoreConfig, first_modem_index, local_number_of_modems, is_local}

-- What the code asks of the server, of which it cannot tell the answers.
pub record JackServer : Type 0 where
  pub client_open : Text → Option Text → Bool
  pub sample_rate : ℕ
  pub activate : Bool
  pub has_capture_ports : Bool
  pub has_playback_ports : Bool
  pub port_register : Text → Bool
  pub connect : Text → Text → Bool

pub record ConnectionConfig : Type 0 where
  pub core : CoreConfig
  pub sampling_freq : ℕ
  pub server_name : Option Text
  pub capture_port_prefix : Text
  pub playback_port_prefix : Text
  pub port_name_starting_index : ℤ

-- What is asked of the server and of the groups, in order.
pub data SetupStep : Type 0 where
  -- the group `AudioOut` from the first modem to the second
  subscribed : ℕ → ℕ → SetupStep
  set_callbacks : SetupStep
  activated : SetupStep
  registered : Text → SetupStep
  -- the source and the destination
  connected : Text → Text → SetupStep

-- `input_port_` and `output_port_`, as the names of the ports, and the steps.
pub record JackPorts : Type 0 where
  pub input_port : Option Text
  pub output_port : List Text
  pub steps : List SetupStep

unfoldable pub client_name : ℕ → Text
client_name k =
    b'n'
    ∷ b'e'
    ∷ b't'
    ∷ b's'
    ∷ b'i'
    ∷ b'm'
    ∷ b'_'
    ∷ b'c'
    ∷ b'o'
    ∷ b'r'
    ∷ b'e'
    ∷ b'_'
    ∷ b't'
    ∷ b'h'
    ∷ b'r'
    ∷ b'e'
    ∷ b'a'
    ∷ b'd'
    ∷ b'_'
    ∷ nat_text k

unfoldable pub input_port_name : ℕ → Text
input_port_name k = b'i' ∷ b'n' ∷ b'p' ∷ b'u' ∷ b't' ∷ b'_' ∷ nat_text k

unfoldable pub output_port_name : ℕ → Text
output_port_name m = b'o' ∷ b'u' ∷ b't' ∷ b'p' ∷ b'u' ∷ b't' ∷ b'_' ∷ nat_text m

unfoldable pub capture_port_name : ConnectionConfig → ℕ → Text
capture_port_name cfg k =
    cfg.capture_port_prefix
    ++ int_text (pos k +ℤ cfg.port_name_starting_index -ℤ pos (first_modem_index cfg.core))

unfoldable pub playback_port_name : ConnectionConfig → ℕ → Text
playback_port_name cfg i =
    cfg.playback_port_prefix ++ int_text (pos i +ℤ cfg.port_name_starting_index)

-- The groups of the modems from `i` on, of which there are `n`; the switch has `max` cases.
unfoldable pub subscribe_out : ℕ → ℕ → ℕ → ℕ → List SetupStep
subscribe_out max k i zero = []
subscribe_out max k i (suc n) =
    let rest = subscribe_out max k (i + 1) n in if ltb i max then subscribed k i ∷ rest else rest

unfoldable pub connect_input :
    JackServer → ConnectionConfig → ℕ → Option (Option Text × List SetupStep)
connect_input server cfg k =
    if is_local cfg.core k
    then if server.has_capture_ports
      then if server.port_register (input_port_name k)
        then if server.connect (capture_port_name cfg k) (input_port_name k)
          then some (
            some (input_port_name k),
            registered (input_port_name k)
                ∷ connected (capture_port_name cfg k) (input_port_name k)
                ∷ [],
          )
          else none
        else none
      else none
    else some (none, [])

-- The output ports from `i` on, of which there are `n`.
unfoldable pub connect_outputs :
    JackServer → ConnectionConfig → ℕ → ℕ → Option (List Text × List SetupStep)
connect_outputs server cfg i zero = some ([], [])
connect_outputs server cfg i (suc n) =
    let rest = connect_outputs server cfg (i + 1) n in
    let name = output_port_name (i + first_modem_index cfg.core) in
    if server.port_register name
    then if server.connect name (playback_port_name cfg i)
      then (rest >>= λ p.
          some (name ∷ p.0, registered name ∷ connected name (playback_port_name cfg i) ∷ p.1))
      else none
    else none

-- The ports and steps of a constructor that returns.
unfoldable pub joined :
    ℕ → ConnectionConfig → ℕ → Option Text × List SetupStep → List Text × List SetupStep → JackPorts
joined max cfg k input outputs = record {
  input_port = input.0;
  output_port = outputs.0;
  steps =
      subscribe_out max k 0 cfg.core.number_of_modems
      ++ (set_callbacks ∷ activated ∷ [])
      ++ input.1
      ++ outputs.1;
}

-- The constructor from the playback ports on.
unfoldable pub connect_playback :
    ℕ → JackServer → ConnectionConfig → ℕ → Option Text × List SetupStep → Option JackPorts
connect_playback max server cfg k input =
    if server.has_playback_ports
    then (connect_outputs server cfg 0 (local_number_of_modems cfg.core) >>= λ outputs.
        some (joined max cfg k input outputs))
    else none

unfoldable pub setup : ℕ → JackServer → ConnectionConfig → ℕ → Option JackPorts
setup max server cfg k =
    if server.client_open (client_name k) cfg.server_name
    then if server.sample_rate == cfg.sampling_freq
      then if server.activate
        then (connect_input server cfg k >>= connect_playback max server cfg k)
        else none
      else none
    else none
