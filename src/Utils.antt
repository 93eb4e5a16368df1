-- ===== src/Utils.antt =====
-- ai_orchestrator/utils: retries, the circuit breaker and the rate limits.
pub mod Backoff
pub mod Breaker
pub mod Throttle
