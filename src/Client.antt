-- ===== src/Client.antt =====
-- feeder_client: the envelopes that a client reads, its streams, and the trading bot.
mod Trading
mod Registry
pub mod Ending
pub mod Gate
pub mod Restart
pub mod Tracked
pub mod Rows
mod Envelopes
pub mod Connection
pub mod Heard
pub mod Strategy
unfoldable pub use Trading.*
unfoldable pub use Registry.*
unfoldable pub use Envelopes.*
