-- ===== src/Core/Logger.antt =====
-- src/apps/netsim_core/logger.h: `LoggerThread`, which writes each packet's audio to files and tells
-- the post-processor when a packet's files are complete. A call returns the new `files_`, and what
-- it did to files and published, in order; `none` is a read through a null pointer.
pub mod Entries
pub mod History
pub mod Events
mod Examples
use netsim.Prelude.{
  ℕ, ◌≡◌, Bool, true, false, ◌&&◌, List, [], ◌∷◌, ◌++◌, Option, none, some, if◌then◌else◌,
}
use netsim.Prelude.Int.{ℤ}
use netsim.Prelude.Maps.{Map, lookup, assign, erase, int_key}
use netsim.Prelude.Text.{Text, int_text, pad_left}
use netsim.Core.Audio.{AudioBuffer, TaggedAudioBuffer, Marker}

pub data Direction : Type 0 where
  input output : Direction

pub data EventKind : Type 0 where
  packet_start all_logs_closed_for_packet : EventKind

-- src/lib/messages/logger.proto
pub record LoggerEvent : Type 0 where
  pub event : EventKind
  pub packet_id : ℤ
  pub tx_modem_id : ℤ
  pub log_dir : Option Text
  pub start_time : Option Text

pub record LoggerConfig : Type 0 where
  pub log_directory : Text
  -- `start_time`, the time at which the thread was made
  pub start_time : Text

-- A stream is known by the name that it was opened with.
pub data Effect {ℓ} (D : Type ℓ) : Type ℓ where
  opened closed : Text → Effect D
  wrote_time : Text → D → Effect D
  wrote_samples : Text → List D → Effect D
  published : LoggerEvent → Effect D

-- For one direction: packet id to modem to stream; `none` is a null `unique_ptr`.
abbrev pub Streams : Type 0
Streams = Map ℤ (Map ℤ (Option Text))

pub record Files : Type 0 where
  pub inputs : Streams
  pub outputs : Streams

abbrev pub streams : Direction → Files → Streams
streams Direction.input f = f.inputs
streams Direction.output f = f.outputs

abbrev pub with_streams : Direction → Streams → Files → Files
with_streams Direction.input s f = record f { inputs = s }
with_streams Direction.output s f = record f { outputs = s }

-- `files_[dir][packet_id]`, empty where it is missing.
abbrev pub modems : ℤ → Streams → Map ℤ (Option Text)
modems id s = elim (lookup id s) [ none ↦ [] | some m ↦ m ]

-- `files_[dir][packet_id][modem]`, null where it is missing.
abbrev pub stream : ℤ → ℤ → Streams → Option Text
stream id modem s = elim (lookup modem (modems id s)) [ none ↦ none | some p ↦ p ]

abbrev pub put : ℤ → ℤ → Option Text → Streams → Streams
put id modem p s = assign id (assign modem p (modems id s)) s

abbrev direction_text : Direction → Text
direction_text Direction.input = b'i' ∷ b'n' ∷ b'_' ∷ []
direction_text Direction.output = b'o' ∷ b'u' ∷ b't' ∷ b'_' ∷ []

abbrev receiver_text : Direction → ℤ → Text
receiver_text Direction.input to = []
receiver_text Direction.output to = b'_' ∷ b'r' ∷ b'x' ∷ int_text to

-- "<log_directory>/netsim_<start_time>_in_<packet id, 3 wide>_tx<from>[_rx<to>].bin"
unfoldable pub file_name : LoggerConfig → Direction → ℤ → ℤ → ℤ → Text
unfolding int_text pad_left
file_name cfg dir id from to =
    cfg.log_directory
    ++ (b'/' ∷ b'n' ∷ b'e' ∷ b't' ∷ b's' ∷ b'i' ∷ b'm' ∷ b'_' ∷ [])
    ++ cfg.start_time
    ++ (b'_' ∷ [])
    ++ direction_text dir
    ++ pad_left 3 b'0' (int_text id)
    ++ (b'_' ∷ b't' ∷ b'x' ∷ [])
    ++ int_text from
    ++ receiver_text dir to
    ++ (b'.' ∷ b'b' ∷ b'i' ∷ b'n' ∷ [])

abbrev pub start_event : ℤ → ℤ → LoggerEvent
start_event id modem = record {
  event = packet_start;
  packet_id = id;
  tx_modem_id = modem;
  log_dir = none;
  start_time = none;
}

abbrev pub closed_event : LoggerConfig → ℤ → ℤ → LoggerEvent
closed_event cfg id from = record {
  event = all_logs_closed_for_packet;
  packet_id = id;
  tx_modem_id = from;
  log_dir = some cfg.log_directory;
  start_time = some cfg.start_time;
}

-- `modem_index`
abbrev pub key : Direction → ℤ → ℤ → ℤ
key Direction.input from to = from
key Direction.output from to = to

abbrev close {ℓ} : {D : Type ℓ} → Option Text → List (Effect D)
close none = []
close (some name) = closed name ∷ []

abbrev start_published {ℓ} : {D : Type ℓ} → Direction → ℤ → ℤ → List (Effect D)
start_published Direction.input id modem = published (start_event id modem) ∷ []
start_published Direction.output id modem = []

-- `files_[Direction::OUT][packet_id].empty()`
abbrev pub all_closed : ℤ → Files → Bool
all_closed id f = elim (modems id f.outputs) [ [] ↦ true | _ ↦ false ]

abbrev pub is_output : Direction → Bool
is_output Direction.input = false
is_output Direction.output = true

module _ {ℓ} {D : Type ℓ} where
  -- The first part, for a buffer marked as a start: a new stream, which replaces one that is there.
  unfoldable pub open_log :
      LoggerConfig → Direction → ℤ → ℤ → ℤ → AudioBuffer D → Files → Files × List (Effect D)
  open_log cfg dir id from to block f =
      let modem = key dir from to in
      let name = file_name cfg dir id from to in
      let old = stream id modem (streams dir f) in
      (
        with_streams dir (put id modem (some name) (streams dir f)) f,
        (opened name ∷ close old)
            ++ (wrote_time name block.buffer_start_time ∷ start_published dir id modem),
      )

  -- The second part: the samples go to the stream, if it is not null. Looking it up makes an entry.
  unfoldable pub write_log :
      Direction → ℤ → ℤ → Option (AudioBuffer D) → Files → Option (Files × List (Effect D))
  write_log dir id modem buffer f =
      let s = streams dir f in
      let f' = with_streams dir (put id modem (stream id modem s) s) f in
      elim (stream id modem s) [
        | none ↦ some (f', [])
        | some name ↦ elim buffer [
          | none ↦ none
          | some block ↦ some (f', wrote_samples name block.samples ∷ [])
        ]
      ]

  -- The third part, for a buffer marked as an end.
  unfoldable pub close_log : LoggerConfig → Direction → ℤ → ℤ → ℤ → Files → Files × List (Effect D)
  close_log cfg dir id from to f =
      let modem = key dir from to in
      let s = streams dir f in
      let f' = with_streams dir (assign id (erase modem (modems id s)) s) f in
      let told =
        if is_output dir && all_closed id f'
        then published (closed_event cfg id from) ∷ []
        else [] in
      (f', close (stream id modem s) ++ told)

  -- What `log_audio` does after the first part.
  unfoldable pub log_rest :
      LoggerConfig
      → Direction
      → ℤ
      → ℤ
      → TaggedAudioBuffer D
      → Files
      → Option (Files × List (Effect D))
  log_rest cfg dir from to t f = elim (write_log dir t.packet_id (key dir from to) t.buffer f) [
    | none ↦ none
    | some (f', out) ↦ elim t.marker [
      | Marker.end ↦
          let (f'', last) = close_log cfg dir t.packet_id from to f' in some (f'', out ++ last)
      | _ ↦ some (f', out)
    ]
  ]

  unfoldable pub log_audio :
      LoggerConfig
      → Direction
      → ℤ
      → ℤ
      → TaggedAudioBuffer D
      → Files
      → Option (Files × List (Effect D))
  log_audio cfg dir from to t f = elim t.marker [
    | Marker.start ↦ elim t.buffer [
      | none ↦ none
      | some block ↦
          let (f', first) = open_log cfg dir t.packet_id from to block f in
          elim (log_rest cfg dir from to t f') [
            | none ↦ none
            | some (f'', out) ↦ some (f'', first ++ out)
          ]
    ]
    | _ ↦ log_rest cfg dir from to t f
  ]

-- One call of `log_audio`: the modem that sent the buffer and, for the output of a processor, the
-- modem that it is for.
pub record Call {ℓ} (D : Type ℓ) : Type ℓ where
  pub direction : Direction
  pub from : ℤ
  pub to : ℤ
  pub buffer : TaggedAudioBuffer D

module _ {ℓ} {D : Type ℓ} where
  unfoldable pub run : LoggerConfig → List (Call D) → Files → Option (Files × List (Effect D))
  run cfg [] f = some (f, [])
  run cfg (c ∷ cs) f = elim (log_audio cfg c.direction c.from c.to c.buffer f) [
    | none ↦ none
    | some (f', out) ↦ elim (run cfg cs f') [
      | none ↦ none
      | some (f'', rest) ↦ some (f'', out ++ rest)
    ]
  ]

unfoldable pub init : Files
init = record { inputs = []; outputs = [] }
