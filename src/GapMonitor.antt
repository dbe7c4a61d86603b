-- ===== src/GapMonitor.antt =====
-- feeder_server/data/app.d/runtime/gap_monitors/binance_gap_monitor.py: committed envelopes are
-- scanned in order, and a jump of a symbol's trade ids is given to the planner as a gap.
--
-- The threads, the event log and the sleeps are left out. `add_gap` is the planner's own; where it
-- never returns (`none`), neither does the scan.
mod Scan
pub mod Known
pub mod Complete
pub mod Sightings
pub mod Rows
pub mod Replay
pub mod Rounds
unfoldable pub use Scan.*
