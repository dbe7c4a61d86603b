-- ===== src/Consumers.antt =====
-- feeder_server/data/app.d/runtime/consumers.py: the two loops that take envelopes from the bus
-- and the store to the Deephaven sink and to the journal. One call below is one round of a loop.
-- Heartbeats, sleeps and the event log are left out.
mod Rounds
pub mod Progress
unfoldable pub use Rounds.*
