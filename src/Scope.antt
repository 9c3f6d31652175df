-- ===== src/Scope.antt =====
-- apps/api/src/common: which hosts an audit may touch.
pub mod HostPattern
pub mod ReconScope
mod Examples
