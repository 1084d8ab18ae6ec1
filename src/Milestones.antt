-- ===== src/Milestones.antt =====
-- Milestones (apps/api/app/milestones): the derived status, and the commands that move it.
pub mod Derivation
pub mod Transitions
