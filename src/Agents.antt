-- ===== src/Agents.antt =====
-- apps/api/src/agent-runtime: the agents' share of an audit.
pub mod Budget
pub mod RetryStrategy
mod Examples
