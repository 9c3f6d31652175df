-- ===== src/Recon.antt =====
-- apps/api/src/recon: the discovery of a target's endpoints.
pub mod Budget
pub mod HostLease
mod Examples
