-- ===== src/Services.antt =====
-- feeder_server/data/app.d/runtime/services.py: services built on demand by factories that get others.
mod Building
pub mod Order
pub mod Ending
unfoldable pub use Building.*
