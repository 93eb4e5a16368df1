-- ===== src/Workspace.antt =====
-- ai_orchestrator/workspace: the files of a task, under one directory.
pub mod Disk
pub mod Texts
pub mod Files
pub mod Snapshots
