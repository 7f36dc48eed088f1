-- ===== src/Controller/Repeats.antt =====
-- Calls of the controller that are sent again.
pub mod Tasks
pub mod Decisions
pub mod Results
