-- ===== src/Sinks.antt =====
-- feeder_server/data/app.d/sinks: the registry of writers, and the sink that gives each tick of an
-- envelope to the writer of its provider and stream.
mod Registry
pub mod Routing
pub mod Columns
pub mod Delivered
unfoldable pub use Registry.*
