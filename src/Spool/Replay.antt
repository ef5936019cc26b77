-- ===== src/Spool/Replay.antt =====
-- Proofs about spool/sink.py: what a replay takes from the directory, and what it counts.
use mathlib.Core.List.{append-nil}
use nats_sinks.Common.{
  ℕ, ◌≡◌, refl, ap, sym, ◌∙◌, inl, Bool, List, ◌++◌, length, Option, Any, arith,
}
use nats_sinks.Errors.{Error, Result, ok, err}
use nats_sinks.Envelope.{NatsEnvelope}
use nats_sinks.Spool.{
  SpoolSinkConfig, SpoolFile, committed_entries, Replaying, truncated, summary, nothing_replayed,
  replay_entries, replay_spool_to_sink, SpoolReplayResult,
}
use nats_sinks.Spool.Took.{Kept, Took, deletions, replay_each-Took}

module _ (config : SpoolSinkConfig) (sink : List SpoolFile → NatsEnvelope → Option Error)
    (unlink_fails : SpoolFile → Bool) where
  -- The counts of a replay that was not cut short.
  pub record Counts (entries : List SpoolFile) (result : SpoolReplayResult) : Type 0 where
    pub scanned : result.scanned_records ≡ length entries
    pub replayed : result.replayed_records ≡ length entries
    pub deleted : result.deleted_records ≡ deletions config.delete_after_replay entries
    pub failed : result.failed_records ≡ 0

  summary-Counts :
      (files entries : List SpoolFile) (r : Replaying × Result (Unit {0}))
      → Took config sink unlink_fails entries (nothing_replayed config sink unlink_fails files) r
      → (result : SpoolReplayResult) → (summary config sink unlink_fails entries r).1 ≡ ok result
      → ((summary config sink unlink_fails entries r).0.written ≡ entries) × Counts entries result
  summary-Counts files entries (r, err e) t result h = cc
  summary-Counts files entries (r, ok done) t result h =
      let whole : t.taken ≡ entries =
        sym (t.split ∙ (ap (λ l. t.taken ++ l) (t.finished refl) ∙ append-nil t.taken)) in
      let deleted_so_far : r.deleted ≡ deletions config.delete_after_replay t.taken =
        omega (arith, t.removed refl) in
      let made = returned h in
      (
        t.wrote ∙ whole,
        record {
          scanned = ap (λ (c : SpoolReplayResult). c.scanned_records) (sym made);
          replayed =
              ap (λ (c : SpoolReplayResult). c.replayed_records) (sym made)
              ∙ ap length (t.wrote ∙ whole);
          deleted =
              ap (λ (c : SpoolReplayResult). c.deleted_records) (sym made)
              ∙ (deleted_so_far ∙ ap (deletions config.delete_after_replay) whole);
          failed = ap (λ (c : SpoolReplayResult). c.failed_records) (sym made);
        },
      )
    where
      returned : {a b : SpoolReplayResult} → ok a ≡ ok b → a ≡ b
      returned e = cc

  summary-Kept :
      (files entries : List SpoolFile) (r : Replaying × Result (Unit {0}))
      → Took config sink unlink_fails entries (nothing_replayed config sink unlink_fails files) r
      → (file : SpoolFile) → Any (λ f. f ≡ file) files
      → Kept config sink unlink_fails (summary config sink unlink_fails entries r).0 file
  unfolding Kept
  summary-Kept files entries (r, err e) t file h = t.kept file (inl h)
  summary-Kept files entries (r, ok done) t file h = t.kept file (inl h)

  -- However a replay ends, a file of the directory is still there, or the other sink has committed the
  -- envelope of a file of its name.
  pub replay_spool_to_sink-Kept :
      (files : List SpoolFile) (max_records : Option ℕ) (file : SpoolFile)
      → Any (λ f. f ≡ file) files
      → Kept config sink unlink_fails
          (replay_spool_to_sink config sink unlink_fails files max_records).0
          file
  unfolding replay_spool_to_sink Kept
  replay_spool_to_sink-Kept files max_records file h =
      listed_or_not (committed_entries config files)
    where
      listed_or_not :
          (entries : Result (List SpoolFile))
          → Kept config sink unlink_fails
              (replay_entries config sink unlink_fails files max_records entries).0
              file
      listed_or_not (err e) = inl h
      listed_or_not (ok entries) =
          summary-Kept files (truncated max_records entries) _
            (replay_each-Took config sink unlink_fails (truncated max_records entries)
              (nothing_replayed config sink unlink_fails files))
            file h

  -- If a replay returns a result, the directory was listed, the other sink committed exactly the
  -- listed entries up to the maximum, in their order, and the result counts them as scanned and
  -- replayed, as deleted if replayed files are to be deleted, and none as failed.
  pub replay_spool_to_sink-Counts :
      (files : List SpoolFile) (max_records : Option ℕ) (result : SpoolReplayResult)
      → (replay_spool_to_sink config sink unlink_fails files max_records).1 ≡ ok result
      → (entries : List SpoolFile) × (committed_entries config files ≡ ok entries)
        × ((replay_spool_to_sink config sink unlink_fails files max_records).0.written
            ≡ truncated max_records entries)
        × Counts (truncated max_records entries) result
  unfolding replay_spool_to_sink
  replay_spool_to_sink-Counts files max_records result h =
      listed_or_not (committed_entries config files) refl h
    where
      listed_or_not :
          (found : Result (List SpoolFile))
          → committed_entries config files ≡ found
          → (replay_entries config sink unlink_fails files max_records found).1 ≡ ok result
          → (entries : List SpoolFile) × (found ≡ ok entries)
            × ((replay_entries config sink unlink_fails files max_records found).0.written
                ≡ truncated max_records entries)
            × Counts (truncated max_records entries) result
      listed_or_not (err e) q h = cc
      listed_or_not (ok entries) q h =
          let (written, counts) =
            summary-Counts files (truncated max_records entries) _
              (replay_each-Took config sink unlink_fails (truncated max_records entries)
                (nothing_replayed config sink unlink_fails files))
              result h in
          (entries, refl, written, counts)
