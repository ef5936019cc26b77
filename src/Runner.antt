-- ===== src/Runner.antt =====
-- core/runner.py: the loop between JetStream and a sink. Its actions, what it does with one message,
-- with a batch that failed, with a batch, and with the messages of a push subscription.
pub mod Exec
pub mod Message
pub mod Settle
pub mod Batch
pub mod Intake
pub mod Authenticated
pub mod Traced
pub mod Spooled
pub mod FannedOut
