-- ===== src/Store.antt =====
-- The database as the services see it (internal/repository), and what they run on.
pub mod Rows
pub mod DocumentRows
pub mod World
pub mod Hoare
pub mod Keeps
pub mod Frames
pub mod Leads
pub mod Transactions
pub mod Items
pub mod Approvals
pub mod Rules
pub mod Access
pub mod Projects
pub mod Outbox
pub mod Queue
pub mod Roles
pub mod Documents
pub mod Reservations
