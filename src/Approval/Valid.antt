-- ===== src/Approval/Valid.antt =====
-- Every call of the approval service keeps the chains valid.
pub mod Access
pub mod Turn
pub mod Notices
pub mod Rules
pub mod MoveOn
pub mod Decide
pub mod Opening
pub mod Submit
