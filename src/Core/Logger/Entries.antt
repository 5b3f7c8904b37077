-- ===== src/Core/Logger/Entries.antt =====
-- src/apps/netsim_core/logger.h: which packets and receivers have an entry in `files_`.
use netsim.Prelude.{
  ◌≡◌, refl, Bool, true, false, not, ◌&&◌, ◌||◌, List, [], ◌∷◌, ◌++◌, Option, none, some, arith,
  if◌then◌else◌, ◌↔◌,
}
use netsim.Prelude.Int.{ℤ, eqb_ℤ, eqb_ℤ_iff}
use netsim.Prelude.Maps.{Map, lookup, assign, erase, int_key, lookup-assign, lookup-erase, eqb_refl}
use netsim.Prelude.Text.{Text}
use netsim.Core.Audio.{Marker}
use netsim.Core.Logger.{Effect, Files, Streams, EventKind, modems, put, all_closed, stream}

abbrev pub is_some {ℓ} : {A : Type ℓ} → Option A → Bool
is_some none = false
is_some (some _) = true

abbrev pub is_end : Marker → Bool
is_end Marker.end = true
is_end _ = false

-- The receiver has an entry for the packet.
unfoldable pub has_entry : ℤ → ℤ → Streams → Bool
has_entry id modem s = is_some (lookup modem (modems id s))

pub modems-assign :
    (id j : ℤ) (m : Map ℤ (Option Text)) (s : Streams)
    → modems j (assign id m s) ≡ (if eqb_ℤ id j then m else modems j s)
modems-assign id j m s = rw (lookup-assign id j m s, modems) (ground arith)

pub has_entry-put :
    (id modem j k : ℤ) (p : Option Text) (s : Streams)
    → has_entry j k (put id modem p s) ≡ (eqb_ℤ id j && eqb_ℤ modem k || has_entry j k s)
unfolding has_entry
has_entry-put id modem j k p s = ground (
  arith,
  modems-assign id j (assign modem p (modems id s)) s,
  lookup-assign modem k p (modems id s),
  eqb_ℤ_iff id j,
)

pub has_entry-erase :
    (id modem j k : ℤ) (s : Streams)
    → has_entry j k (assign id (erase modem (modems id s)) s)
      ≡ (not (eqb_ℤ id j && eqb_ℤ modem k) && has_entry j k s)
unfolding has_entry
has_entry-erase id modem j k s = ground (
  arith,
  modems-assign id j (erase modem (modems id s)) s,
  lookup-erase modem k (modems id s),
  eqb_ℤ_iff id j,
)

pub stream-put :
    (id modem : ℤ) (p : Option Text) (s : Streams) → stream id modem (put id modem p s) ≡ p
stream-put id modem p s = ground (
  arith,
  modems-assign id id (assign modem p (modems id s)) s,
  lookup-assign modem modem p (modems id s),
  eqb_refl id,
  eqb_refl modem,
)

is_nil : Map ℤ (Option Text) → Bool
is_nil [] = true
is_nil (_ ∷ _) = false

is_nil_iff :
    (m : Map ℤ (Option Text)) → (is_nil m ≡ true) ↔ ((k : ℤ) → is_some (lookup k m) ≡ false)
unfolding lookup is_nil
is_nil_iff [] = (λ e k. refl, λ h. refl)
is_nil_iff ((j, p) ∷ m) = (λ e. cc, λ h. ground (arith, h j, eqb_refl j))

all_closed-eq : (id : ℤ) (f : Files) → all_closed id f ≡ is_nil (modems id f.outputs)
unfolding is_nil
all_closed-eq id f = go (modems id f.outputs) refl
  where
    go :
        (m : Map ℤ (Option Text))
        → modems id f.outputs ≡ m
        → all_closed id f ≡ is_nil (modems id f.outputs)
    go [] e = rw (e, all_closed)
    go (x ∷ m) e = rw (e, all_closed)

-- `empty()` says that no receiver has an entry.
pub all_closed_iff :
    (id : ℤ) (f : Files) → (all_closed id f ≡ true) ↔ ((k : ℤ) → has_entry id k f.outputs ≡ false)
unfolding has_entry
all_closed_iff id f = rw (all_closed-eq id f) (is_nil_iff (modems id f.outputs))

-- Whether the list tells the post-processor that a packet's files are complete.
abbrev pub tells_closed : EventKind → Bool
tells_closed EventKind.packet_start = false
tells_closed EventKind.all_logs_closed_for_packet = true

unfoldable pub announces {ℓ} : {D : Type ℓ} → List (Effect D) → Bool
announces [] = false
announces (Effect.published e ∷ out) = tells_closed e.event || announces out
announces (_ ∷ out) = announces out

pub announces-append {ℓ} :
    {D : Type ℓ} (out rest : List (Effect D))
    → announces (out ++ rest) ≡ (announces out || announces rest)
unfolding announces
announces-append [] rest = refl
announces-append (Effect.published e ∷ out) rest = ground (arith, announces-append out rest)
announces-append (Effect.opened t ∷ out) rest = announces-append out rest
announces-append (Effect.closed t ∷ out) rest = announces-append out rest
announces-append (Effect.wrote_time t d ∷ out) rest = announces-append out rest
announces-append (Effect.wrote_samples t xs ∷ out) rest = announces-append out rest
