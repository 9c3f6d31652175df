-- ===== src/Orchestrator/History.antt =====
-- The histories of the tables: what every operation of the orchestrator keeps, and what therefore
-- holds after any sequence of them.
pub mod Moves
pub mod Keys
pub mod Work
pub mod Claim
pub mod Skip
pub mod Schedule
pub mod Advance
pub mod Steps
pub mod Invariants
pub mod Fencing
