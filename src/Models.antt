-- ===== src/Models.antt =====
-- ai_orchestrator/models: the data that the orchestrator's components share.
pub mod Task
pub mod Account
pub mod Capabilities
pub mod Lease
-- The unit of the clock: a `datetime` counts microseconds.
use chat_to_agent.Base.{ℕ}

abbrev pub second : ℕ
second = 1_000_000

abbrev pub minute : ℕ
minute = 60_000_000
