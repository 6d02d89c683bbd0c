-- ===== src/Approval.antt =====
-- internal/service/approval: the rules that say who approves, and the chain of approvals that a
-- submitted transaction goes through.
pub mod Notify
pub mod Submit
pub mod Decide
pub mod Chain
pub mod Valid
pub mod Rules
pub mod RuleChanges
pub mod Requests
pub mod LastRule
pub mod Defaults
pub mod Outcomes
pub mod Guards
pub mod Scenarios
mod Examples
