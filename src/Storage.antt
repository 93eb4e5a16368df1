-- ===== src/Storage.antt =====
-- ai_orchestrator/storage: the in-memory store and the journal of task steps on it.
pub mod Memory
pub mod Journal
