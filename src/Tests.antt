-- ===== src/Tests.antt =====
-- Test data and the runs of commands on it.
pub mod Samples
pub mod Runs
pub mod Events
pub mod Witnesses
pub mod EventWitnesses
pub mod Plans
pub mod Creation
pub mod Family
pub mod Issues
