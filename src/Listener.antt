-- ===== src/Listener.antt =====
-- feeder_server/data/app.d/fanout/listener.py: the listener of one symbol's table view turns table
-- updates into batches of added, updated and completed rows. The rows of a table have the same columns, so
-- that the table of completed rows, which has those of the first, holds each of them whole.
mod Updates
pub mod Bars
pub mod Buffer
pub mod Streams
unfoldable pub use Updates.*
