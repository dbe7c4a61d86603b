-- ===== src/Journal.antt =====
-- feeder_server/data/app.d/storage/journal_duckdb.py: the journal of committed ticks.
mod Tables
pub mod Keys
pub mod Upsert
pub mod Merge
pub mod Best
pub mod Scopes
pub mod Streams
pub mod HotStream
pub mod Chains
pub mod Pages
pub mod Committed
pub mod Ids
pub mod Batches
unfoldable pub use Tables.*
