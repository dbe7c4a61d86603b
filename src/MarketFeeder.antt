-- ===== src/MarketFeeder.antt =====
-- feeder_server/data/app.d/fanout/core.py: listeners shared by subscriptions, and the events that a
-- client is sent when it attaches.
mod Subscriptions
mod Events
pub mod Counts
pub mod Calls
pub mod Leaks
pub mod Phases
pub mod Numbering
pub mod Snapshots
pub mod Catchup
unfoldable pub use Subscriptions.*
unfoldable pub use Events.*
