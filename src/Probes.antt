-- ===== src/Probes.antt =====
-- The independent probes of firmarbiter_core/probes.
pub mod Reachability
pub mod Stability
pub mod Authenticity
pub mod Boot
pub mod Unpack
pub mod Orchestrator
mod Examples
