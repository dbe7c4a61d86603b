-- ===== src/Binance.antt =====
-- feeder_server/data/app.d/providers/binance/producer_ws.py, with the parser of a trade message of
-- feeder_server/data/app.d/providers/binance/adapter.py.
mod Trades
pub mod Published
unfoldable pub use Trades.*
