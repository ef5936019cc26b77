-- ===== src/Lib.antt =====
-- A verification library for nats-sinks, a runtime that reads messages from a NATS JetStream consumer
-- and writes them in batches to a sink, under one rule: commit, then acknowledge.
--
-- How the program works. The runner (src/nats_sinks/core/runner.py) fetches a batch, or collects one
-- from a bounded queue that a push subscription fills. It maps every message to an envelope, checks
-- authenticity, encrypts bodies, applies the size policy and the pre-sink policy, attaches custody
-- metadata, schedules the envelopes by priority lanes and calls the sink. Messages that a gate or
-- the sink rejects for good are published to a dead letter subject; others are left to redelivery.
-- Only then is a message acknowledged.
--
-- The files, and the code that each is about (under src/nats_sinks/core where no
-- directory is named):
--   Errors             errors.py: exception classes, results of code that may raise
--   Subjects           subjects.py: patterns; Subjects/Matching and Subjects/Subset have the proofs
--   Metadata           message_metadata.py: values, labels and their resolution from headers
--   Envelope           envelope.py: the envelope as its constructor normalises it
--   Metrics            metrics.py: the updates that the core makes
--   Priority           priority.py: weighted lanes; its children have the proofs
--   Gate               the loop that policy.py, size_policy.py and authenticity.py share
--   Policy, SizePolicy policy.py and size_policy.py with their classes in config.py
--   Runner             runner.py: Runner/Exec has its actions, Runner/Message what it does with one
--                      message, Runner/Settle the ends of a batch, Runner/Batch the pipeline,
--                      Runner/Intake the pull loop and the push queue; each has a child for its proofs
--   Authenticity       authenticity.py with its classes in config.py; Runner/Authenticated puts it
--                      into the runner, and its child has the theorem about all gates together
--   Routing            routing_policy.py
--   Batching           batching.py
--   AckGate            ack_gate.py: Required, Optional and Raises have the proofs
--   Fanout             fanout_sink.py: the grouping; Fanout/Sink has the construction and the write
--                      through the gate, Fanout/Children the life cycle
--   Spool              src/nats_sinks/spool/sink.py; Spool/Record is spool/record.py; Runner/Spooled
--                      is a runner whose sink is the spool, Runner/FannedOut one whose sink is the
--                      fan-out; both rest on Runner/Traced
--   Consumer           consumer.py: the mapping of a client's message, with the metadata defaults of
--                      config.py
--   DeadLetter         dlq.py: the document of a message that failed for good
--   Config             config.py: the validators of routing targets (Config/Targets) and of priority
--                      lanes (Config/Lanes)
--   Fixtures, Tests    sample values and the theorems applied to them
--
-- How stateful code is modelled. What the runner does to the world is a history of events, the
-- newest first. An action takes a history to a result, which may be an error, and the longer
-- history. The sink, the client and the server are functions of the history (`Outside`), so a
-- theorem about all of them is about every order of their answers. Acknowledgements count from the
-- moment they are called, commits and dead letters only once they have succeeded; a write of the
-- sink that raised is an event of its own.
--
-- Bounds and fuel. The weighted rounds of the lanes recur on the number of waiting assignments:
-- a round that goes on takes one at least, so that many are enough. A heartbeat recurs on the
-- intervals that pass during a write. The batches of a collection recur on its length, since each
-- takes one item at least. All other loops recur on their list.
--
-- Not modelled: connections and the validators of most of the configuration, the text of errors and
-- logs, the length of delays and durations, the resolution of mission metadata and security labels
-- (parameters of Consumer), ciphers and hashes (parameters of Authenticity), the rendering of JSON
-- and its size, the arithmetic of floating point numbers, the file system below the spool's calls,
-- the metrics of the fan-out, and the destinations. Text is made of Unicode characters without lone
-- surrogates, so encoding it does not raise. Push callbacks run between batches here: one that runs
-- while a batch is processed stands behind it. Policies that the fan-out merges have passed their validators, which the code runs
-- once more on the merged one; this second run is left out.
--
-- The runner takes the mapping of a message and the publication of a dead letter as
-- parameters of `Setup` and `Outside`; their own modules have their code.
mod Common
pub mod Errors
pub mod Subjects
pub mod Metadata
pub mod Envelope
pub mod Metrics
pub mod Batching
pub mod Priority
pub mod Gate
pub mod Policy
pub mod SizePolicy
pub mod Authenticity
pub mod Routing
pub mod AckGate
pub mod Fanout
pub mod Spool
pub mod Consumer
pub mod DeadLetter
pub mod Config
pub mod Runner
mod Fixtures
mod Tests
