-- ===== src/EventStore.antt =====
-- feeder_server/data/app.d/core/contracts.py, `EventStore`, as an interface, and its implementation
-- feeder_server/data/app.d/storage/eventstore_duckdb.py in the modules below.
pub mod Interface
pub mod Codec
pub mod DuckDb
pub mod Laws
pub mod Retention
