-- ===== src/Spool.antt =====
-- spool/sink.py: a directory of committed records, how a batch is written to it and how it is
-- replayed into another sink. The files are listed in the order in which the directory yields them.
-- Names, records, their sizes and the outcomes of the file system's calls are parameters.
pub mod Limits
pub mod Writes
pub mod Took
pub mod Replay
pub mod Order
pub mod Record
use nats_sinks.Common.{
  ℕ, suc, ◌+◌, Bool, true, false, not, ◌&&◌, ◌||◌, List, [], ◌∷◌, ◌++◌, Option, none, some, String,
  str_eq, all, length, take, at_most, ltb, ◌==◌, if◌then◌else◌,
}
use nats_sinks.Errors.{
  Error, permanent_sink_error, destination_unavailable_error, Result, ok, err, ◌>>=◌,
  serialization_error, unexpected,
}
use nats_sinks.Envelope.{NatsEnvelope}

pub data SpoolDuplicatePolicy : Type 0 where
  skip_existing fail_existing : SpoolDuplicatePolicy

pub data SpoolDrainOrdering : Type 0 where
  by_priority fifo : SpoolDrainOrdering

pub record SpoolSinkConfig : Type 0 where
  pub max_records : ℕ
  pub max_bytes : ℕ
  pub duplicate_policy : SpoolDuplicatePolicy
  pub drain_ordering : SpoolDrainOrdering
  pub delete_after_replay : Bool

-- What a file holds: the size of its text; whether `_load_wrapper` can read it; the rank and the
-- time of the wrapper, 999 and 0 where they are no integers; and what `load_envelope` makes of it.
pub record Wrapper : Type 0 where
  pub size : ℕ
  pub is_readable : Bool
  pub priority_rank : ℕ
  pub spooled_at_epoch_ns : ℕ
  pub loaded : Result NatsEnvelope

pub record SpoolFile : Type 0 where
  pub name : String
  pub wrapper : Wrapper

-- How the write of one file ends: it is committed, an OSError is raised before the link is made, or
-- one is raised after it.
pub data FileOutcome : Type 0 where
  lands fails_before fails_after : FileOutcome

-- `destination.exists()`
abbrev pub exists : List SpoolFile → String → Bool
exists [] name = false
exists (file ∷ files) name = str_eq file.name name || exists files name

abbrev pub total_size : List SpoolFile → ℕ
total_size [] = 0
total_size (file ∷ files) = file.wrapper.size + total_size files

module _ (config : SpoolSinkConfig) (filename : NatsEnvelope → Result String)
    (wrapper_of : NatsEnvelope → Result Wrapper)
    (outcome : List SpoolFile → SpoolFile → FileOutcome) where
  -- A file that is there already: it is skipped, or it ends the plan.
  abbrev pub on_duplicate : SpoolDuplicatePolicy → Result (List SpoolFile) → Result (List SpoolFile)
  on_duplicate skip_existing rest = rest
  on_duplicate fail_existing rest = err permanent_sink_error

  abbrev pub plan_one :
      Bool → NatsEnvelope → String → Result (List SpoolFile) → Result (List SpoolFile)
  plan_one true message name rest = on_duplicate config.duplicate_policy rest
  plan_one false message name rest = do
    wrapper ← wrapper_of message
    files ← rest
    ok (record { name = name; wrapper = wrapper } ∷ files)

  -- The first loop of `_write_batch_sync`: nothing is written yet.
  unfoldable pub plan_records : List SpoolFile → List NatsEnvelope → Result (List SpoolFile)
  plan_records files [] = ok []
  plan_records files (message ∷ messages) =
      let rest = plan_records files messages in
      do name ← filename message; plan_one (exists files name) message name rest

  -- `_write_wrapper` with `_commit_temp_file`: the link is made once.
  abbrev pub commit_new :
      List SpoolFile → SpoolFile → FileOutcome → List SpoolFile × Result (Unit {0})
  commit_new files file lands = (files ++ file ∷ [], ok tt)
  commit_new files file fails_before = (files, err destination_unavailable_error)
  commit_new files file fails_after = (files ++ file ∷ [], err destination_unavailable_error)

  abbrev pub commit_existing :
      SpoolDuplicatePolicy → List SpoolFile → List SpoolFile × Result (Unit {0})
  commit_existing skip_existing files = (files, ok tt)
  commit_existing fail_existing files = (files, err permanent_sink_error)

  unfoldable pub write_wrapper : List SpoolFile → SpoolFile → List SpoolFile × Result (Unit {0})
  write_wrapper files file =
      if exists files file.name
      then commit_existing config.duplicate_policy files
      else commit_new files file (outcome files file)

  abbrev pub after_wrapper :
      List SpoolFile × Result (Unit {0})
      → (List SpoolFile → List SpoolFile × Result (Unit {0}))
      → List SpoolFile × Result (Unit {0})
  after_wrapper (files, ok _) later = later files
  after_wrapper (files, err e) later = (files, err e)

  unfoldable pub write_all : List SpoolFile → List SpoolFile → List SpoolFile × Result (Unit {0})
  write_all files [] = (files, ok tt)
  write_all files (file ∷ planned) =
      after_wrapper (write_wrapper files file) λ files'. write_all files' planned

  abbrev pub write_planned : List SpoolFile → List SpoolFile → List SpoolFile × Result (Unit {0})
  write_planned files [] = (files, ok tt)
  write_planned files (file ∷ planned) =
      if ltb config.max_records (length files + length (file ∷ planned))
        || ltb config.max_bytes (total_size files + total_size (file ∷ planned))
      then (files, err destination_unavailable_error)
      else write_all files (file ∷ planned)

  abbrev pub if_planned :
      List SpoolFile → Result (List SpoolFile) → List SpoolFile × Result (Unit {0})
  if_planned files (err e) = (files, err e)
  if_planned files (ok planned) = write_planned files planned

  -- The directory after the call, and whether it raised.
  unfoldable pub write_batch_sync :
      List SpoolFile → List NatsEnvelope → List SpoolFile × Result (Unit {0})
  write_batch_sync files messages = if_planned files (plan_records files messages)

  -- `SpoolSink.write_batch`
  abbrev pub write_batch : List SpoolFile → List NatsEnvelope → List SpoolFile × Result (Unit {0})
  write_batch files [] = (files, ok tt)
  write_batch files (message ∷ messages) = write_batch_sync files (message ∷ messages)

-- The sort keys of `committed_entries`, compared as pairs: `key left <= key right`.
abbrev pub first_key : ℕ → ℕ → Bool → Bool
first_key l r second = if ltb l r then true else if l == r then second else false

abbrev pub precedes : SpoolDrainOrdering → SpoolFile → SpoolFile → Bool
precedes by_priority left right =
    first_key left.wrapper.priority_rank right.wrapper.priority_rank
      (not (ltb right.wrapper.spooled_at_epoch_ns left.wrapper.spooled_at_epoch_ns))
precedes fifo left right =
    first_key left.wrapper.spooled_at_epoch_ns right.wrapper.spooled_at_epoch_ns
      (at_most left.name right.name)

-- `sorted`, which keeps files of one key in their order.
abbrev pub insert_entry : SpoolDrainOrdering → SpoolFile → List SpoolFile → List SpoolFile
insert_entry ordering file [] = file ∷ []
insert_entry ordering file (other ∷ files) =
    let rest = insert_entry ordering file files in
    if precedes ordering file other then file ∷ other ∷ files else other ∷ rest

abbrev pub sort_entries : SpoolDrainOrdering → List SpoolFile → List SpoolFile
sort_entries ordering [] = []
sort_entries ordering (file ∷ files) = insert_entry ordering file (sort_entries ordering files)

-- A wrapper that cannot be read ends the listing.
unfoldable pub committed_entries : SpoolSinkConfig → List SpoolFile → Result (List SpoolFile)
committed_entries config files =
    if all (λ (file : SpoolFile). file.wrapper.is_readable) files
    then ok (sort_entries config.drain_ordering files)
    else err serialization_error

pub record SpoolReplayResult : Type 0 where
  pub scanned_records : ℕ
  pub replayed_records : ℕ
  pub deleted_records : ℕ
  pub failed_records : ℕ

-- The directory, the entries whose envelope the other sink committed, and the counts so far.
pub record Replaying : Type 0 where
  pub files : List SpoolFile
  pub written : List SpoolFile
  pub deleted : ℕ

-- `entry.path.unlink()`
abbrev pub unlink : String → List SpoolFile → List SpoolFile
unlink name [] = []
unlink name (file ∷ files) =
    let rest = unlink name files in if str_eq file.name name then rest else file ∷ rest

abbrev pub truncated {ℓ} : {A : Type ℓ} → Option ℕ → List A → List A
truncated none entries = entries
truncated (some n) entries = take n entries

-- `sink` answers the write of an entry's envelope after those already written; `unlink_fails` tells
-- whether its file cannot be removed.
module _ (config : SpoolSinkConfig) (sink : List SpoolFile → NatsEnvelope → Option Error)
    (unlink_fails : SpoolFile → Bool) where
  abbrev pub remove_entry : Bool → Bool → SpoolFile → Replaying → Replaying × Result (Unit {0})
  remove_entry false fails entry r = (r, ok tt)
  remove_entry true true entry r = (r, err unexpected)
  remove_entry true false entry r =
      (record r { files = unlink entry.name r.files; deleted = suc r.deleted }, ok tt)

  abbrev pub after_sink : Option Error → SpoolFile → Replaying → Replaying × Result (Unit {0})
  after_sink (some e) entry r = (r, err e)
  after_sink none entry r =
      remove_entry config.delete_after_replay (unlink_fails entry) entry
        (record r { written = r.written ++ entry ∷ [] })

  abbrev pub after_load :
      Result NatsEnvelope → SpoolFile → Replaying → Replaying × Result (Unit {0})
  after_load (err e) entry r = (r, err e)
  after_load (ok envelope) entry r = after_sink (sink r.written envelope) entry r

  abbrev pub continue_replay :
      Replaying × Result (Unit {0})
      → (Replaying → Replaying × Result (Unit {0}))
      → Replaying × Result (Unit {0})
  continue_replay (r, ok _) later = later r
  continue_replay (r, err e) later = (r, err e)

  unfoldable pub replay_each : List SpoolFile → Replaying → Replaying × Result (Unit {0})
  replay_each [] r = (r, ok tt)
  replay_each (entry ∷ entries) r =
      continue_replay (after_load entry.wrapper.loaded entry r) (replay_each entries)

  -- An error that ends the loop is raised again, so no result counts a failed record.
  abbrev pub summary :
      List SpoolFile → Replaying × Result (Unit {0}) → Replaying × Result SpoolReplayResult
  summary entries (r, err e) = (r, err e)
  summary entries (r, ok _) = (
    r,
    ok (record {
      scanned_records = length entries;
      replayed_records = length r.written;
      deleted_records = r.deleted;
      failed_records = 0;
    }),
  )

  abbrev pub nothing_replayed : List SpoolFile → Replaying
  nothing_replayed files = record { files = files; written = []; deleted = 0 }

  abbrev pub replay_entries :
      List SpoolFile → Option ℕ → Result (List SpoolFile) → Replaying × Result SpoolReplayResult
  replay_entries files max_records (err e) = (nothing_replayed files, err e)
  replay_entries files max_records (ok entries) =
      summary (truncated max_records entries)
        (replay_each (truncated max_records entries) (nothing_replayed files))

  unfoldable pub replay_spool_to_sink :
      List SpoolFile → Option ℕ → Replaying × Result SpoolReplayResult
  replay_spool_to_sink files max_records =
      replay_entries files max_records (committed_entries config files)
