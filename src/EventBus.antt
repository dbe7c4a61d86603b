-- ===== src/EventBus.antt =====
-- feeder_server/data/app.d/core/event_bus.py: one ordered bus, two drains with their own cursors,
-- a bounded buffer in memory over a durable store.
mod Ring
pub mod Rows
pub mod Owed
pub mod Delivery
pub mod Backlog
pub mod Publishers
unfoldable pub use Ring.*
