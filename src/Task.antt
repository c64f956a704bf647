-- ===== src/Task.antt =====
-- src/task: the cooperative scheduler with its stacks and saved contexts.
pub mod Stack
pub mod Types
pub mod Scheduler
