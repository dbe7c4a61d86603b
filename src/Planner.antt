-- ===== src/Planner.antt =====
-- feeder_server/data/app.d/runtime/backfill/planner.py: gaps are cut into tasks, tasks wait in one
-- queue for each provider, a producer claims a task and reports it done or failed.
--
-- Tasks are mutable objects that a queue and the dictionary `_tasks` share: both hold the address
-- of a task in `heap`. Addresses are given out in order, `next` is the first free one. What the
-- program takes from `uuid` and `time` is a parameter, one draw of each for a task.
mod Enqueue
pub mod Slices
pub mod Gaps
pub mod Claims
pub mod Once
unfoldable pub use Enqueue.*
