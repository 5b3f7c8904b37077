-- ===== src/Core/Logger/History.antt =====
-- src/apps/netsim_core/logger.h: which entries `files_` has after a call.
use netsim.Prelude.{
  ◌≡◌, refl, sym, subst, Bool, true, false, not, ◌&&◌, ◌||◌, List, [], ◌∷◌, ◌++◌, Option, none,
  some, arith, if◌then◌else◌, Option-cases, inl, inr,
}
use netsim.Prelude.Int.{ℤ, eqb_ℤ}
use netsim.Prelude.Maps.{int_key}
use netsim.Core.Audio.{tagged, AudioBuffer, TaggedAudioBuffer, Marker}
use netsim.Core.Logger.{
  Direction, LoggerConfig, Effect, Files, wrote_samples, put, key, all_closed, is_output, file_name,
  stream, streams, with_streams, open_log, write_log, close_log, log_rest, log_audio,
}
use netsim.Core.Logger.Entries.{
  is_some, is_end, has_entry, has_entry-put, has_entry-erase, announces, announces-append,
}

-- Not a null pointer.
abbrev pub HasBuffer {ℓ} : {D : Type ℓ} → TaggedAudioBuffer D → Type 0
HasBuffer t = is_some t.buffer ≡ true

-- The call is about the output of packet `j` for the receiver `k`.
abbrev pub on_key : Direction → ℤ → ℤ → ℤ → ℤ → Bool
on_key dir to id j k = is_output dir && (eqb_ℤ id j && eqb_ℤ to k)

module _ {ℓ} (D : Type ℓ) (cfg : LoggerConfig) (dir : Direction) (from to : ℤ) where
  -- What a call does to the entries of the processors' output, and whether it announces.
  abbrev pub Logged : TaggedAudioBuffer D → Files → Option (Files × List (Effect D)) → Type 0
  Logged t f none = ⊥
  Logged t f (some (f', out)) =
      ((j k : ℤ)
        → has_entry j k f'.outputs ≡ (
            if on_key dir to t.packet_id j k
            then not (is_end t.marker)
            else has_entry j k f.outputs))
      × (announces out ≡ (is_output dir && (is_end t.marker && all_closed t.packet_id f')))

  open_log-entry :
      (id j k : ℤ) (block : AudioBuffer D) (f : Files)
      → has_entry j k (open_log cfg dir id from to block f).0.outputs
        ≡ (on_key dir to id j k || has_entry j k f.outputs)
  unfolding open_log
  open_log-entry id j k block f =
      ground (arith, has_entry-put id to j k (some (file_name cfg dir id from to)) f.outputs)

  open_log-announces :
      (id : ℤ) (block : AudioBuffer D) (f : Files)
      → announces (open_log cfg dir id from to block f).1 ≡ false
  unfolding open_log announces
  open_log-announces id block f = ground arith

  write_log-Wrote :
      (id : ℤ) (block : AudioBuffer D) (f : Files)
      → (f' : Files) × (out : List (Effect D)) × (write_log dir id (key dir from to) (some block) f
          ≡ some (f', out))
        × ((j k : ℤ) → has_entry j k f'.outputs ≡ (on_key dir to id j k || has_entry j k f.outputs))
        × (announces out ≡ false)
  unfolding write_log announces
  write_log-Wrote id block f =
      let s = streams dir f in
      let p = stream id (key dir from to) s in
      let f' : Files = with_streams dir (put id (key dir from to) p s) f in
      let kept : (j k : ℤ)
          → has_entry j k f'.outputs ≡ (on_key dir to id j k || has_entry j k f.outputs) =
        λ j k. ground (arith, has_entry-put id to j k p f.outputs) in
      elim (Option-cases p) [
        | inl e ↦ (f', [], ground arith, kept, refl)
        | inr (name, e) ↦ (f', wrote_samples name block.samples ∷ [], ground arith, kept, refl)
      ]

  close_log-entry :
      (id j k : ℤ) (f : Files)
      → has_entry j k (close_log {D = D} cfg dir id from to f).0.outputs
        ≡ (not (on_key dir to id j k) && has_entry j k f.outputs)
  unfolding close_log
  close_log-entry id j k f = ground (arith, has_entry-erase id to j k f.outputs)

  close_log-announces :
      (id : ℤ) (f : Files)
      → let (f', out) = close_log {D = D} cfg dir id from to f in
        announces out ≡ (is_output dir && all_closed id f')
  unfolding close_log announces
  close_log-announces id f = ground arith

  log_rest-Logged :
      (block : AudioBuffer D) (m : Marker) (id : ℤ) (f : Files)
      → Logged (tagged (some block) m id) f (log_rest cfg dir from to (tagged (some block) m id) f)
  unfolding log_rest
  log_rest-Logged block Marker.end id f =
      let (f', out, e, kept, silent) = write_log-Wrote id block f in
      let (f'', last) = close_log {D = D} cfg dir id from to f' in
      rw (e, log_rest)
        (
          λ j k. ground (arith, close_log-entry id j k f', kept j k),
          ground (arith, close_log-announces id f', silent, announces-append out last),
        )
  log_rest-Logged block m id f =
      let (f', out, e, kept, silent) = write_log-Wrote id block f in
      rw (e, log_rest) (λ j k. ground (arith, kept j k), ground (arith, silent))

  after_open :
      (block : AudioBuffer D) (id : ℤ) (f : Files) (r : Option (Files × List (Effect D)))
      → Logged (tagged (some block) Marker.start id) (open_log cfg dir id from to block f).0 r
      → Logged (tagged (some block) Marker.start id) f (elim r [
        | none ↦ none
        | some (f', out) ↦ some (f', (open_log cfg dir id from to block f).1 ++ out)
      ])
  after_open block id f none l = l
  after_open block id f (some (f', out)) (kept, told) = (
    λ j k. ground (arith, kept j k, open_log-entry id j k block f),
    ground (
      arith,
      told,
      open_log-announces id block f,
      announces-append (open_log cfg dir id from to block f).1 out,
    ),
  )

  log_audio_block-Logged :
      (block : AudioBuffer D) (m : Marker) (id : ℤ) (f : Files)
      → Logged (tagged (some block) m id) f (log_audio cfg dir from to (tagged (some block) m id) f)
  unfolding log_audio
  log_audio_block-Logged block Marker.start id f =
      after_open block id f _ (log_rest-Logged block Marker.start id _)
  log_audio_block-Logged block m id f = log_rest-Logged block m id f

  -- No call reads through a null pointer, and its effect on the entries and the announcement.
  pub log_audio-Logged :
      (t : TaggedAudioBuffer D) (f : Files)
      → HasBuffer t
      → Logged t f (log_audio cfg dir from to t f)
  log_audio-Logged t f h = go t.buffer refl
    where
      go : (b : Option (AudioBuffer D)) → t.buffer ≡ b → Logged t f (log_audio cfg dir from to t f)
      go none e = cc
      go (some block) e =
          let same : t ≡ tagged (some block) t.marker t.packet_id = ground arith in
          subst (λ u. Logged u f (log_audio cfg dir from to u f)) (sym same)
            (log_audio_block-Logged block t.marker t.packet_id f)

  opened-Logged :
      (t : TaggedAudioBuffer D) (f : Files) (r : Option (Files × List (Effect D)))
      → Logged t f r
      → (f' : Files) × (out : List (Effect D)) × (r ≡ some (f', out)) × Logged t f (some (f', out))
  opened-Logged t f none l = absurd l
  opened-Logged t f (some (f', out)) l = (f', out, refl, l)

  pub log_audio_step :
      (t : TaggedAudioBuffer D) (f : Files)
      → HasBuffer t
      → (f' : Files) × (out : List (Effect D)) × (log_audio cfg dir from to t f ≡ some (f', out))
        × Logged t f (some (f', out))
  log_audio_step t f h = opened-Logged t f _ (log_audio-Logged t f h)
