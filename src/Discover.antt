-- ===== src/Discover.antt =====
-- crates/aura-discover: which process variables are archived, and their resolution.
pub mod ConfigPoller
pub mod Reconciler
pub mod Orchestrator
