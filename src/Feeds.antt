-- ===== src/Feeds.antt =====
-- feeder_server/data/app.d/ingest: feeders by their specifications, and the manager of their producers.
mod Specs
mod Manager
pub mod Autostart
unfoldable pub use Specs.*
unfoldable pub use Manager.*
