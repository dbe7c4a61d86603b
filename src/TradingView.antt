-- ===== src/TradingView.antt =====
-- feeder_server/data/app.d/providers/tradingview/producer_api.py: bars of the TradingView API.
mod Batches
pub mod Progress
pub mod Cutoff
pub mod Frames
pub mod Reading
pub mod RoundTrip
mod Quotes
mod QuoteFeed
pub mod Kept
pub mod Turns
unfoldable pub use Batches.*
unfoldable pub use Quotes.*
unfoldable pub use QuoteFeed.*
