-- ===== src/Orchestrator.antt =====
-- ai_orchestrator/orchestrator: the components that the gateway drives.
pub mod Leases
pub mod Router
pub mod Workflow
pub mod Dlq
pub mod Resources
pub mod Health
pub mod Gateway
