-- ===== src/Adapters.antt =====
-- ai_orchestrator/adapters: what all adapters of providers share, and how long a provider rests.
pub mod Sending
pub mod Cooldown
pub mod Json
pub mod Extraction
