-- ===== src/Access.antt =====
-- Who may do what: roles and Teams, the capability matrix, Event visibility, and policy values.
pub mod Grants
pub mod Roles
pub mod Authorization
pub mod Visibility
pub mod Participants
pub mod Policies
