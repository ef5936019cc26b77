-- ===== src/Runner/Spooled.antt =====
-- core/runner.py with spool/sink.py: a runner whose sink is the spool. The directory is what the
-- writes so far made of the one at the start.
pub mod Durable
use nats_sinks.Common.{List, [], ◌∷◌, Option, none, some, String}
use nats_sinks.Errors.{Error, Result, ok, err}
use nats_sinks.Envelope.{NatsEnvelope}
use nats_sinks.Runner.Exec.{Event, committed, write_raised, History, Outside}
use nats_sinks.Spool.{SpoolSinkConfig, Wrapper, SpoolFile, FileOutcome, write_batch}

abbrev pub error_of : Result (Unit {0}) → Option Error
error_of (ok _) = none
error_of (err e) = some e

-- What an event had the sink write, if anything.
abbrev pub written_by : Event → Option (List NatsEnvelope)
written_by (committed envelopes) = some envelopes
written_by (write_raised envelopes) = some envelopes
written_by _ = none

module _ (config : SpoolSinkConfig) (filename : NatsEnvelope → Result String)
    (wrapper_of : NatsEnvelope → Result Wrapper)
    (outcome : List SpoolFile → SpoolFile → FileOutcome) (initial : List SpoolFile) where
  abbrev pub after_event : Option (List NatsEnvelope) → List SpoolFile → List SpoolFile
  after_event none files = files
  after_event (some envelopes) files =
      (write_batch config filename wrapper_of outcome files envelopes).0

  -- The files after a history: each write that ended made its own of those before it.
  unfoldable pub files_after : History → List SpoolFile
  files_after [] = initial
  files_after (event ∷ h) = after_event (written_by event) (files_after h)

  -- `SpoolSink.write_batch` as the runner's sink.
  unfoldable pub spool_write : History → List NatsEnvelope → Option Error
  spool_write h envelopes =
      error_of (write_batch config filename wrapper_of outcome (files_after h) envelopes).1
