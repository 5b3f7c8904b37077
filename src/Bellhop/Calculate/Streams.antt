-- ===== src/Bellhop/Calculate/Streams.antt =====
-- src/apps/iBellhop/iBellhop.cpp, calculate_env: opening, writing and closing the streams.
use Prim.Native.String.{String}
use netsim.Prelude.{◌≡◌, refl, Bool, true, false, [], ◌∷◌, none, some, All, arith}
use netsim.Acoustics.{
  OutputType, arrival_times, eigenrays, rays, coherent_pressure, incoherent_pressure,
  semicoherent_pressure,
}
use netsim.Acoustics.EnvFile.{EnvFiles}
use netsim.Bellhop.{
  Libraries, OutputStream, OutputStreams, Act, publish, publish_text, written, system,
}
use netsim.Bellhop.Calculate.{
  open_stream, close_stream, close_all, open_all, write_stream, write_all, notify,
}

abbrev pub AllClosed : OutputStreams → Type 0
AllClosed s =
    (s.env_out.file ≡ none)
    × (s.ssp_out.file ≡ none)
    × (s.bty_out.file ≡ none)
    × (s.trc_out.file ≡ none)
    × (s.brc_out.file ≡ none)

-- All streams are open, with the files of a name, and have not failed.
abbrev pub AreOpen {ℓ} : {D : Type ℓ} → Libraries D → String → OutputStreams → Type 0
AreOpen lib base s =
    (s.env_out ≡ record { file = some (lib.concat (base ∷ ".env" ∷ [])); failed = false })
    × (s.ssp_out ≡ record { file = some (lib.concat (base ∷ ".ssp" ∷ [])); failed = false })
    × (s.bty_out ≡ record { file = some (lib.concat (base ∷ ".bty" ∷ [])); failed = false })
    × (s.trc_out ≡ record { file = some (lib.concat (base ∷ ".trc" ∷ [])); failed = false })
    × (s.brc_out ≡ record { file = some (lib.concat (base ∷ ".brc" ∷ [])); failed = false })

-- A stream with a file that is open.
abbrev Opened : OutputStream → Type 0
Opened s = (name : String) × (s.file ≡ some name)

-- No file is written.
abbrev pub IsQuiet {ℓ} : {D : Type ℓ} → Act D → Type 0
IsQuiet (publish _ _) = Unit
IsQuiet (publish_text _ _) = Unit
IsQuiet (written _ _) = ⊥
IsQuiet (system _) = Unit

close_stream-file : (s : OutputStream) → (close_stream s).file ≡ none
unfolding close_stream
close_stream-file s = ground arith

open_stream-closed :
    (can_open : String → Bool) (name : String) (s : OutputStream)
    → can_open name ≡ true
    → s.file ≡ none
    → open_stream can_open name s ≡ record { file = some name; failed = false }
unfolding open_stream
open_stream-closed can_open name s h e = ground (arith, h)

open_stream-open :
    (can_open : String → Bool) (name old : String) (s : OutputStream)
    → s.file ≡ some old
    → open_stream can_open name s ≡ record { file = some old; failed = true }
unfolding open_stream
open_stream-open can_open name old s e = ground arith

-- The streams with files, all of which are good or have failed.
abbrev pub all_at : Bool → String → String → String → String → String → OutputStreams
all_at failed env ssp bty trc brc = record {
  env_out = record { file = some env; failed = failed };
  ssp_out = record { file = some ssp; failed = failed };
  bty_out = record { file = some bty; failed = failed };
  trc_out = record { file = some trc; failed = failed };
  brc_out = record { file = some brc; failed = failed };
}

pub close_all-AllClosed : (s : OutputStreams) → AllClosed (close_all s)
unfolding close_all
close_all-AllClosed s = (
  close_stream-file s.env_out,
  close_stream-file s.ssp_out,
  close_stream-file s.bty_out,
  close_stream-file s.trc_out,
  close_stream-file s.brc_out,
)

module _ {ℓ} {D : Type ℓ} (lib : Libraries D) (can_open : String → Bool) where
  abbrev pub name : String → String → String
  name base kind = lib.concat (base ∷ kind ∷ [])

  -- The streams just opened.
  abbrev pub fresh : String → OutputStreams
  fresh base =
      all_at false (name base ".env") (name base ".ssp") (name base ".bty") (name base ".trc")
        (name base ".brc")

  pub open_all-closed :
      ((n : String) → can_open n ≡ true)
      → (base : String) (s : OutputStreams) → AllClosed s
      → open_all lib can_open base s ≡ fresh base
  unfolding open_all
  open_all-closed h base s (e1, e2, e3, e4, e5) = ground (
    arith,
    open_stream-closed can_open (name base ".env") s.env_out (h (name base ".env")) e1,
    open_stream-closed can_open (name base ".ssp") s.ssp_out (h (name base ".ssp")) e2,
    open_stream-closed can_open (name base ".bty") s.bty_out (h (name base ".bty")) e3,
    open_stream-closed can_open (name base ".trc") s.trc_out (h (name base ".trc")) e4,
    open_stream-closed can_open (name base ".brc") s.brc_out (h (name base ".brc")) e5,
  )

  pub open_all-again :
      (base old : String)
      → open_all lib can_open base (fresh old)
        ≡ all_at true
            (name old ".env")
            (name old ".ssp")
            (name old ".bty")
            (name old ".trc")
            (name old ".brc")
  unfolding open_all open_stream
  open_all-again base old = refl

  pub write_all-failed :
      (a b c e g : String) (files : EnvFiles D) → write_all (all_at true a b c e g) files ≡ []
  unfolding write_all write_stream
  write_all-failed a b c e g files = refl

  pub write_all-fresh :
      (base : String) (files : EnvFiles D)
      → write_all (fresh base) files
        ≡ written (name base ".env") files.os
          ∷ written (name base ".ssp") files.ssp
          ∷ written (name base ".bty") files.bty
          ∷ written (name base ".trc") files.trc
          ∷ written (name base ".brc") files.brc
          ∷ []
  unfolding write_all write_stream
  write_all-fresh base files = refl

  pub notify-IsQuiet :
      (t : OutputType) (contact dir file : String) → All IsQuiet (notify lib t contact dir file)
  unfolding notify
  notify-IsQuiet arrival_times contact dir file = (tt, tt)
  notify-IsQuiet eigenrays contact dir file = (tt, tt)
  notify-IsQuiet rays contact dir file = (tt, tt)
  notify-IsQuiet coherent_pressure contact dir file = (tt, (tt, tt))
  notify-IsQuiet incoherent_pressure contact dir file = (tt, (tt, tt))
  notify-IsQuiet semicoherent_pressure contact dir file = (tt, (tt, tt))
