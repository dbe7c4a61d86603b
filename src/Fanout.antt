-- ===== src/Fanout.antt =====
-- feeder_server/data/app.d/fanout/api.py and fanout/runtime_bridge.py: the rows that a client is sent,
-- and its websocket connection.
mod Bridge
mod Socket
mod Requests
pub mod Held
pub mod Released
unfoldable pub use Bridge.*
unfoldable pub use Socket.*
unfoldable pub use Requests.*
