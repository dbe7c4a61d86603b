-- ===== src/Backfill.antt =====
-- feeder_server/data/app.d/providers/binance/producer_backfill.py, with the parser of a REST row of
-- feeder_server/data/app.d/providers/binance/adapter.py: a task of the planner is fetched in pages.
mod Pages
mod Worker
pub mod Drained
pub mod Limiter
pub mod Rest
pub mod Range
unfoldable pub use Pages.*
unfoldable pub use Worker.*
