-- ===== src/Orchestrator.antt =====
-- apps/api/src/orchestrator: audits, their jobs, the scheduler and the workers' view of a job.
pub mod Dispatch
pub mod JobGraph
pub mod AuditState
pub mod RetryPolicy
pub mod Store
pub mod Lifecycle
pub mod Settlement
pub mod Scheduler
pub mod Cancellation
pub mod History
mod Examples
