-- ===== src/Tool.antt =====
-- src/apps/netsim_tool/main.cpp: `NetSimTool`, which sends a transmission from each point of a grid
-- of receiver positions. What it publishes and writes is a list of actions; the parameter `connected`
-- is that of the client. `none` is a position beyond the range of `int`.
pub mod Timing
pub mod Advance
pub mod Route
pub mod Rows
pub mod Termination
mod Examples
use netsim.Prelude.{
  ◌>>=◌, ℕ, zero, suc, ◌+◌, ◌^◌, ◌-◌, Bool, true, false, ◌&&◌, List, [], ◌∷◌, ◌++◌, Option, none,
  some, ltb, if◌then◌else◌,
}
use netsim.Prelude.Int.{ℤ, pos, negsuc, ◌+ℤ◌, ltb_ℤ}
use netsim.Prelude.Floats.{Double, of_nat}

pub record ToolConfig {ℓ} (D : Type ℓ) : Type ℓ where
  pub r_min : ℤ
  pub r_max : ℤ
  pub dr : ℤ
  pub z_min : ℤ
  pub z_max : ℤ
  pub dz : ℤ
  pub slot_seconds : D
  pub loop_frequency_hertz : D

-- `S` is the type of the modem's statistics. The counters of loops and requests only go up by one.
pub record NetSimTool (S : Type 0) : Type 0 where
  pub r : ℤ
  pub z : ℤ
  pub last_r : ℤ
  pub last_z : ℤ
  pub loops_since_last_transmission : ℕ
  pub drivers_ready : ℕ
  pub run_complete : Bool
  pub request_id : ℕ
  pub previous_stats : Option S

-- A request has its id in front; `source_position` is that of the constructor.
pub data Action (S : Type 0) : Type 0 where
  source_position : ℕ → Action S
  receiver_position : ℕ → ℤ → ℤ → Action S
  request_stats : ℕ → S → Action S
  rx_stats : Option S → ℤ → ℤ → Action S
  transmit : Action S
  quit : Action S

-- The members of the constructor, before it asks for anything.
unfoldable pub init {ℓ} : {D : Type ℓ} {S : Type 0} → ToolConfig D → NetSimTool S
init cfg = record {
  r = cfg.r_min;
  z = cfg.z_min;
  last_r = negsuc 0;
  last_z = negsuc 0;
  loops_since_last_transmission = 0;
  drivers_ready = 0;
  run_complete = false;
  request_id = 0;
  previous_stats = none;
}

-- The callback of `groups::tool::ready`.
unfoldable pub ready : {S : Type 0} → NetSimTool S → NetSimTool S
ready s = record s { drivers_ready = s.drivers_ready + 1 }

-- The callback of `groups::tool::receive_data`, with the first `receive_stat` if there is one.
unfoldable pub receive_data :
    {S : Type 0} → Bool → Option S → NetSimTool S → NetSimTool S × List (Action S)
receive_data connected none s = (s, [])
receive_data connected (some stat) s = (
  record s { previous_stats = some stat; request_id = s.request_id + 1 },
  if connected then request_stats s.request_id stat ∷ [] else [],
)

unfoldable pub update_receiver_position :
    {S : Type 0} → Bool → NetSimTool S → NetSimTool S × List (Action S)
update_receiver_position connected s = (
  record s { request_id = s.request_id + 1 },
  if connected then receiver_position s.request_id s.r s.z ∷ [] else [],
)

-- The constructor: once the client is connected it sends where the source is, and then, as long as the
-- client stays so, where the first receiver is.
unfoldable pub construct {ℓ} :
    {D : Type ℓ} {S : Type 0} → ToolConfig D → Bool → NetSimTool S × List (Action S)
construct cfg connected =
    let s = init cfg in
    let (s1, out) =
      update_receiver_position connected (record s { request_id = s.request_id + 1 }) in
    (s1, source_position s.request_id ∷ out)

-- A sum of two `int`s, if that is one.
unfoldable pub add_int : ℤ → ℤ → Option ℤ
add_int a b =
    let sum = a +ℤ b in
    if ltb_ℤ sum (negsuc (2 ^ 31 - 1))
    then none
    else if ltb_ℤ (pos (2 ^ 31 - 1)) sum
    then none
    else some sum

-- The next row of the grid.
unfoldable pub next_row {ℓ} :
    {D : Type ℓ} {S : Type 0} → ToolConfig D → NetSimTool S → Option (NetSimTool S)
next_row cfg s = do
  z' ← add_int s.z cfg.dz
  some (record s {
    r = cfg.r_min;
    z = z';
    run_complete = if ltb_ℤ cfg.z_max z' then true else s.run_complete;
  })

-- The position after a transmission.
unfoldable pub advance {ℓ} :
    {D : Type ℓ} {S : Type 0} → ToolConfig D → NetSimTool S → Option (NetSimTool S)
advance cfg s = do
  r' ← add_int s.r cfg.dr
  if ltb_ℤ cfg.r_max r' then next_row cfg s else some (record s { r = r' })

-- The statistics of the position before, if there is one.
unfoldable pub publish_stats : {S : Type 0} → NetSimTool S → NetSimTool S × List (Action S)
publish_stats s =
    if ltb_ℤ (pos 0) s.last_r && ltb_ℤ (pos 0) s.last_z
    then (record s { previous_stats = none }, rx_stats s.previous_stats s.last_r s.last_z ∷ [])
    else (s, [])

-- `++loops_since_last_transmission_`
abbrev pub counted : {S : Type 0} → NetSimTool S → NetSimTool S
counted s = record s { loops_since_last_transmission = s.loops_since_last_transmission + 1 }

-- The branch of `loop` in which a transmission is due.
unfoldable pub transmission_due {ℓ} :
    {D : Type ℓ} {S : Type 0}
    → ToolConfig D
    → NetSimTool S
    → Option (NetSimTool S × List (Action S))
transmission_due cfg s =
    let (s1, stats) = publish_stats s in
    if s1.run_complete then some (s1, stats ++ quit ∷ []) else do
      s2 ← advance cfg (record s1 { last_r = s1.r; last_z = s1.z })
      some (counted (record s2 { loops_since_last_transmission = 0 }), stats ++ transmit ∷ [])

-- `==` of `double`.
abbrev pub equal {ℓ} : {D : Type ℓ} ⦃d : Double D⦄ → D → D → Bool
equal ⦃d⦄ a b = d.le a b && d.le b a

unfoldable pub half_slot {ℓ} : {D : Type ℓ} ⦃d : Double D⦄ → ToolConfig D → ℕ → Bool
half_slot ⦃d⦄ cfg n =
    equal (of_nat n) (d.div (d.mul cfg.slot_seconds cfg.loop_frequency_hertz) (of_nat 2))

unfoldable pub two_slots {ℓ} : {D : Type ℓ} ⦃d : Double D⦄ → ToolConfig D → ℕ → Bool
two_slots ⦃d⦄ cfg n =
    equal (of_nat n) (d.mul (d.mul (of_nat 2) cfg.slot_seconds) cfg.loop_frequency_hertz)

unfoldable pub loop {ℓ} :
    {D : Type ℓ} ⦃d : Double D⦄ {S : Type 0}
    → ToolConfig D
    → Bool
    → NetSimTool S
    → Option (NetSimTool S × List (Action S))
loop cfg connected s =
    if ltb s.drivers_ready 2
    then some (s, [])
    else if half_slot cfg s.loops_since_last_transmission
    then (let (s1, out) =
          if s.run_complete then (s, []) else update_receiver_position connected s in
        some (counted s1, out))
    else if two_slots cfg s.loops_since_last_transmission
    then transmission_due cfg s
    else some (counted s, [])

unfoldable pub run {ℓ} :
    {D : Type ℓ} ⦃d : Double D⦄ {S : Type 0}
    → ToolConfig D
    → Bool
    → ℕ
    → NetSimTool S
    → Option (NetSimTool S × List (Action S))
run cfg connected zero s = some (s, [])
run cfg connected (suc n) s = do
  (s1, out) ← loop cfg connected s
  (s2, rest) ← run cfg connected n s1
  some (s2, out ++ rest)
