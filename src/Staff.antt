-- ===== src/Staff.antt =====
-- The roles and the placements together: the requests on projects, their members and their roles
-- (internal/service/project, internal/service/role), and what they keep.
pub mod Kept
pub mod RoleChanges
mod ProjectChanges
pub mod MemberChanges
pub mod Requests
mod Cases
mod Names
mod Placements
mod Locked
mod Examples
mod Held
