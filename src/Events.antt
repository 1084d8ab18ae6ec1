-- ===== src/Events.antt =====
-- DR Events and their DR Applications (dr_events/).
pub mod Queries
pub mod Readiness
pub mod Lifecycle
pub mod Applications
pub mod Creation
pub mod Descendants
pub mod Machine
pub mod Guarantees
pub mod Refusals
