-- ===== src/Security.antt =====
-- ai_orchestrator/security: the sandbox for commands.
pub mod Sandbox
