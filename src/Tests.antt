-- ===== src/Tests.antt =====
-- Runs of the operations on small inputs, and the theorems at such inputs.
pub mod Planning
pub mod Storing
pub mod Delivering
pub mod Listening
pub mod Journaling
pub mod Fetching
pub mod Feeding
pub mod Serving
pub mod Trading
pub mod Polling
pub mod Starting
pub mod Quoting
pub mod Fanning
pub mod Ticking
pub mod Hearing
