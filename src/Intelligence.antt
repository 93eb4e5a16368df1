-- ===== src/Intelligence.antt =====
-- ai_orchestrator/browser_intelligence: the recovery of a session, the number of its workers, the bus of
-- its events, and the pool of engines.
pub mod Learning
pub mod Coercing
pub mod Recovery
pub mod Scheduling
pub mod Events
pub mod Pool
