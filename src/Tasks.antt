-- ===== src/Tasks.antt =====
-- Tasks and their dependencies (apps/api/app/tasks_dependencies).
pub mod Policies
pub mod Readiness
pub mod LiveGraph
pub mod Loads
pub mod Dependencies
pub mod Guards
pub mod Lifecycle
