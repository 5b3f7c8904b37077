-- ===== src/Core/Jack/Setup/Channels.antt =====
-- src/apps/netsim_core/jack_thread.h: the channels of the sound card to which the ports of the modems are
-- connected, if the constructors do not end the program.
use mathlib.Core.List.{Mem, mem-cons_self, mem-cons_of_mem, mem-append_left, mem-append_right}
use netsim.Prelude.{
  ℕ, zero, suc, ◌+◌, ◌-◌, ◌<◌, ◌≤◌, ◌≡◌, refl, ap, ◌∙◌, sym, subst, true, ◌==◌, List, [], ◌++◌,
  Option, none, some, some_inj, if-some, bind-some, if-true, get_elem?, arith,
}
use netsim.Prelude.Int.{ℤ, pos, negsuc, ◌+ℤ◌, ◌-ℤ◌}
use netsim.Prelude.Text.{Text, int_text}
use netsim.Core.Network.{CoreConfig, first_modem_index, local_number_of_modems, is_local}
use netsim.Core.Jack.Setup.{
  JackServer, ConnectionConfig, SetupStep, connected, JackPorts, client_name, input_port_name,
  output_port_name, capture_port_name, playback_port_name, connect_input, connect_outputs, joined,
  connect_playback, setup,
}

module _ (server : JackServer) (cfg : ConnectionConfig) where
  -- The port at `j` is that of the modem `m`, and it is connected to the channel of the port `i`.
  abbrev HasPort : ℕ → ℕ → ℕ → List Text × List SetupStep → Type 0
  HasPort j m i p =
      (get_elem? p.0 j ≡ some (output_port_name m))
      × Mem (connected (output_port_name m) (playback_port_name cfg i)) p.1

  -- The port at `j`, if the ports from `i` on are connected.
  connect_outputs-HasPort :
      (n i j : ℕ) (p : List Text × List SetupStep)
      → connect_outputs server cfg i n ≡ some p
      → j < n
      → HasPort j (i + j + first_modem_index cfg.core) (i + j) p
  unfolding connect_outputs
  connect_outputs-HasPort zero i j p e l = absurd (omega (arith, l))
  connect_outputs-HasPort (suc n) i zero p e l =
      let (_, e1) = if-some _ _ e in
      let (_, e2) = if-some _ _ e1 in
      let (rest, e3, e4) = bind-some (connect_outputs server cfg (i + 1) n) _ e2 in
      subst (λ k. HasPort 0 (k + first_modem_index cfg.core) k p) {x = i} {y = i + 0} (omega arith)
        (subst (HasPort 0 (i + first_modem_index cfg.core) i) (some_inj e4)
          (refl, mem-cons_of_mem _ mem-cons_self))
  connect_outputs-HasPort (suc n) i (suc j) p e l =
      let (_, e1) = if-some _ _ e in
      let (_, e2) = if-some _ _ e1 in
      let (rest, e3, e4) = bind-some (connect_outputs server cfg (i + 1) n) _ e2 in
      let (port, at) = connect_outputs-HasPort n (i + 1) j rest e3 (omega (arith, l)) in
      subst (λ k. HasPort (suc j) (k + first_modem_index cfg.core) k p) {x = i + 1 + j}
        {y = i + suc j} (omega arith)
        (subst (HasPort (suc j) (i + 1 + j + first_modem_index cfg.core) (i + 1 + j)) (some_inj e4)
          (port, mem-cons_of_mem _ (mem-cons_of_mem _ at)))

  connect_input-some :
      (k : ℕ) (p : Option Text × List SetupStep)
      → is_local cfg.core k ≡ true
      → connect_input server cfg k ≡ some p
      → (p.0 ≡ some (input_port_name k))
        × Mem (connected (capture_port_name cfg k) (input_port_name k)) p.1
  unfolding connect_input
  connect_input-some k p here e =
      let e0 = sym (if-true (is_local cfg.core k) _ (some (none, [])) here) ∙ e in
      let (_, e1) = if-some server.has_capture_ports _ e0 in
      let (_, e2) = if-some (server.port_register (input_port_name k)) _ e1 in
      let (_, e3) = if-some (server.connect (capture_port_name cfg k) (input_port_name k)) _ e2 in
      subst
        (λ p.
          (p.0 ≡ some (input_port_name k))
          × Mem (connected (capture_port_name cfg k) (input_port_name k)) p.1)
        (some_inj e3) (refl, mem-cons_of_mem _ mem-cons_self)

  -- The two results that a constructor puts together.
  setup-some :
      (max k : ℕ) (a : JackPorts)
      → setup max server cfg k ≡ some a
      → (input : Option Text × List SetupStep) × (outputs : List Text × List SetupStep)
        × (connect_input server cfg k ≡ some input)
        × (connect_outputs server cfg 0 (local_number_of_modems cfg.core) ≡ some outputs)
        × (a ≡ joined max cfg k input outputs)
  unfolding setup connect_playback joined
  setup-some max k a e =
      let (_, e1) = if-some (server.client_open (client_name k) cfg.server_name) _ e in
      let (_, e2) = if-some (server.sample_rate == cfg.sampling_freq) _ e1 in
      let (_, e3) = if-some server.activate _ e2 in
      let (input, e4, e5) =
        bind-some (connect_input server cfg k) (connect_playback max server cfg k) e3 in
      let (_, e6) = if-some server.has_playback_ports _ e5 in
      let (outputs, e7, e8) =
        bind-some (connect_outputs server cfg 0 (local_number_of_modems cfg.core))
          (λ outputs. some (joined max cfg k input outputs)) e6 in
      (input, outputs, e4, e7, sym (some_inj e8))

add-sub : (a f : ℕ) (z : ℤ) → pos (a + f) +ℤ z -ℤ pos f ≡ pos a +ℤ z
add-sub a f (pos n) = ground arith
add-sub a f (negsuc n) = ground arith

is_local-range :
    (core : CoreConfig) (k : ℕ)
    → is_local core k ≡ true
    → (first_modem_index core ≤ k) × (k < first_modem_index core + local_number_of_modems core)
unfolding is_local
is_local-range core k e = ground arith

module _ (max : ℕ) (cfg : ConnectionConfig) where
  Mem-joined_input :
      (k : ℕ) (s : SetupStep) (input : Option Text × List SetupStep)
      (outputs : List Text × List SetupStep)
      → Mem s input.1
      → Mem s (joined max cfg k input outputs).steps
  unfolding joined
  Mem-joined_input k s input outputs m = mem-append_left outputs.1 (mem-append_right _ m)

  Mem-joined_output :
      (k : ℕ) (s : SetupStep) (input : Option Text × List SetupStep)
      (outputs : List Text × List SetupStep)
      → Mem s outputs.1
      → Mem s (joined max cfg k input outputs).steps
  unfolding joined
  Mem-joined_output k s input outputs m = mem-append_right _ m

  -- The number of the channel that a modem is captured from.
  abbrev channel_of : ℕ → ℤ
  channel_of k = pos k +ℤ cfg.port_name_starting_index -ℤ pos (first_modem_index cfg.core)

  -- A local modem is captured and played on the same channel, whatever the answers of the server: if the
  -- constructor of its own thread returns, the thread has an input port, which is connected to a
  -- capture port of a number, and if that of any thread returns, the port of the modem among its
  -- outputs is connected to the playback port of that number.
  pub setup-channel :
      (server server' : JackServer) (k k' : ℕ) (a b : JackPorts)
      → is_local cfg.core k ≡ true
      → setup max server cfg k ≡ some a
      → setup max server' cfg k' ≡ some b
      → (channel : ℤ) × (a.input_port ≡ some (input_port_name k))
        × Mem (connected (cfg.capture_port_prefix ++ int_text channel) (input_port_name k)) a.steps
        × (get_elem? b.output_port (k - first_modem_index cfg.core) ≡ some (output_port_name k))
        × Mem
            (connected (output_port_name k) (cfg.playback_port_prefix ++ int_text channel))
            b.steps
  unfolding joined capture_port_name playback_port_name
  setup-channel server server' k k' a b here ea eb =
      let (input, outputs, e1, e2, e3) = setup-some server cfg max k a ea in
      let (input', outputs', e1', e2', e3') = setup-some server' cfg max k' b eb in
      let first = first_modem_index cfg.core in
      let (from, to) = is_local-range cfg.core k here in
      let (port, captured) = connect_input-some server cfg k input here e1 in
      let (output, played) =
        connect_outputs-HasPort server' cfg (local_number_of_modems cfg.core) 0 (k - first) outputs'
          e2' (omega (arith, from, to)) in
      let modem : 0 + (k - first) + first ≡ k = omega (arith, from) in
      let same : pos (0 + (k - first)) +ℤ cfg.port_name_starting_index ≡ channel_of k =
        sym (add-sub (0 + (k - first)) first cfg.port_name_starting_index) ∙ ap channel_of modem in
      (
        channel_of k,
        subst (λ (a : JackPorts). a.input_port ≡ some (input_port_name k)) (sym e3) port,
        subst
            (λ (a : JackPorts).
              Mem (connected (capture_port_name cfg k) (input_port_name k)) a.steps)
            (sym e3) (Mem-joined_input k _ input outputs captured),
        subst (λ (b : JackPorts). get_elem? b.output_port (k - first) ≡ some (output_port_name k))
            (sym e3') (output ∙ ap (λ m. some (output_port_name m)) modem),
        subst
            (λ (b : JackPorts).
              Mem
                (connected (output_port_name k)
                  (cfg.playback_port_prefix ++ int_text (channel_of k)))
                b.steps)
            (sym e3')
            (Mem-joined_output k' _ input' outputs' (
              subst
                (λ m.
                  Mem
                    (connected (output_port_name m)
                      (cfg.playback_port_prefix ++ int_text (channel_of k)))
                    outputs'.1)
                modem
                (subst
                  (λ c.
                    Mem
                      (connected (output_port_name (0 + (k - first) + first))
                        (cfg.playback_port_prefix ++ int_text c))
                      outputs'.1)
                  same played))),
      )
