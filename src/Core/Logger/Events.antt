-- ===== src/Core/Logger/Events.antt =====
-- src/apps/netsim_core/logger.h: when the post-processor is told that a packet's files are complete.
use netsim.Prelude.{
  ◌≡◌, refl, ap, ◌∙◌, ◌≢◌, ◌↔◌, Bool, true, false, not, List, [], ◌∷◌, ◌++◌, some, All, arith,
  if◌then◌else◌,
}
use netsim.Prelude.Int.{ℤ, eqb_ℤ, eqb_ℤ_iff}
use netsim.Prelude.Maps.{lookup}
use netsim.Core.Audio.{AudioBuffer, Marker, tagged}
use netsim.Core.Logger.{
  Direction, LoggerConfig, Effect, wrote_samples, Files, Call, all_closed, file_name, open_log,
  write_log, log_rest, log_audio, run, init, put,
}
use netsim.Core.Logger.Entries.{is_end, has_entry, all_closed_iff, announces, stream-put}
use netsim.Core.Logger.History.{HasBuffer, on_key, log_audio_step}

eqb_ℤ_refl : (a : ℤ) → eqb_ℤ a a ≡ true
eqb_ℤ_refl a = (eqb_ℤ_iff a a).1 refl

init_entries : (id k : ℤ) → has_entry id k init.outputs ≡ false
unfolding init has_entry lookup
init_entries id k = refl

module _ {ℓ} {D : Type ℓ} where
  -- Whether packet `id` is open at receiver `k` after a history: the last buffer of that packet for
  -- that receiver was not an end.
  unfoldable pub is_open : ℤ → ℤ → Bool → List (Call D) → Bool
  is_open id k before [] = before
  is_open id k before (c ∷ cs) =
      is_open id k
        (if on_key c.direction c.to c.buffer.packet_id id k
          then not (is_end c.buffer.marker)
          else before)
        cs

  run-entries :
      (cfg : LoggerConfig) (cs : List (Call D)) (f : Files)
      → All (λ c. HasBuffer c.buffer) cs
      → (f' : Files) × (out : List (Effect D)) × (run cfg cs f ≡ some (f', out))
        × ((id k : ℤ) → has_entry id k f'.outputs ≡ is_open id k (has_entry id k f.outputs) cs)
  unfolding run is_open
  run-entries cfg [] f h = (f, [], refl, λ id k. refl)
  run-entries cfg (c ∷ cs) f h =
      let (f1, out, e, l) = log_audio_step D cfg c.direction c.from c.to c.buffer f h.0 in
      let (f2, rest, e', entries) = run-entries cfg cs f1 h.1 in
      (
        f2,
        out ++ rest,
        rw (e, run) (rw (e', run)),
        λ id k. entries id k ∙ ap (λ b. is_open id k b cs) (l.0 id k),
      )

  -- From the start of the logger, whatever buffers were logged, if none is null: the history and
  -- the next call are logged with no fault, and the next call tells the post-processor that the
  -- packet's files are complete exactly if it logs the end of a packet for a receiver and the packet
  -- is open at no other receiver, that is, at each the last buffer so far was an end or there was
  -- none.
  pub run-announces :
      (cfg : LoggerConfig) (cs : List (Call D)) (c : Call D)
      → All (λ c'. HasBuffer c'.buffer) cs
      → HasBuffer c.buffer
      → (f : Files) × (out : List (Effect D)) × (run cfg cs init ≡ some (f, out))
        × (f' : Files) × (out' : List (Effect D)) × (log_audio cfg c.direction c.from c.to c.buffer
              f
            ≡ some (f', out'))
        × ((announces out' ≡ true) ↔ (
            (c.direction ≡ Direction.output)
            × (c.buffer.marker ≡ Marker.end)
            × ((k : ℤ) → k ≢ c.to → is_open c.buffer.packet_id k false cs ≡ false)))
  run-announces cfg cs c h h' =
      let (f, out, e, entries) = run-entries cfg cs init h in
      let (f', out', e', l) = log_audio_step D cfg c.direction c.from c.to c.buffer f h' in
      let id = c.buffer.packet_id in
      let known : (k : ℤ) → has_entry id k f.outputs ≡ is_open id k false cs =
        λ k. entries id k ∙ ap (λ b. is_open id k b cs) (init_entries id k) in
      let empty = all_closed_iff id f' in
      (
        f,
        out,
        e,
        f',
        out',
        e',
        (
          λ a.
              let closed : all_closed id f' ≡ true = ground (arith, l.1) in
              (
                ground (arith, l.1),
                ground (arith, l.1),
                λ k ne.
                    ground
                      (arith, empty.0 closed k, l.0 id k, known k, eqb_ℤ_iff c.to k, eqb_ℤ_refl id),
              ),
          λ (dir, last, others).
              let closed = empty.1 (λ k.
                ground (arith, others k, l.0 id k, known k, eqb_ℤ_iff c.to k, eqb_ℤ_refl id)) in
              ground (arith, l.1, closed),
        ),
      )

  -- The streams of the processors' output are kept by packet id and receiver, without the sender.
  -- After the start of a packet from one modem, a middle buffer with the same packet id from any
  -- other modem to the same receiver goes to the file that is named after the first, whatever was
  -- logged before.
  output_shared :
      (cfg : LoggerConfig) (f : Files) (id from other to : ℤ) (block block' : AudioBuffer D)
      → (f1 : Files) × (out : List (Effect D)) × (log_audio cfg Direction.output from to
            (tagged (some block) Marker.start id)
            f
          ≡ some (f1, out))
        × (f2 : Files) × (log_audio cfg Direction.output other to
              (tagged (some block') Marker.middle id)
              f1
            ≡ some
                (f2, wrote_samples (file_name cfg Direction.output id from to) block'.samples ∷ []))
  unfolding log_audio log_rest write_log open_log
  output_shared cfg f id from other to block block' =
      let name = file_name cfg Direction.output id from to in
      let s1 = put id to (some name) f.outputs in
      let s2 = put id to (some name) s1 in
      let s3 = put id to (some name) s2 in
      (
        record f { outputs = s2 },
        (open_log cfg Direction.output id from to block f).1
            ++ (wrote_samples name block.samples ∷ []),
        ground (arith, stream-put id to (some name) f.outputs),
        record f { outputs = s3 },
        ground (arith, stream-put id to (some name) f.outputs, stream-put id to (some name) s1),
      )
