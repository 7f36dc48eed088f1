-- ===== src/Brainstorm.antt =====
-- The explicit-only Hermes Brainstorm engine: its contract with the tasks, and its core.
pub mod Contract
pub mod Rubric
pub mod Materialized
pub mod Ranking
pub mod Gathered
pub mod Winner
pub mod Stages
pub mod Evaluations
pub mod Marks
pub mod Anonymous
pub mod Orchestration
pub mod Tests
