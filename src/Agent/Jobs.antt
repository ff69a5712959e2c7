-- ===== src/Agent/Jobs.antt =====
-- The package jobs: the state of the current one, the start of a new one, and the worker.
pub mod State
pub mod Start
pub mod Started
pub mod Machine
