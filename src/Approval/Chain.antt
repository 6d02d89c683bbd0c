-- ===== src/Approval/Chain.antt =====
-- What holds between requests of the approval chains in the tables: the rows of `approvals` and
-- `approval_decisions` against the status of their transaction.
pub mod Decision
pub mod Transition
pub mod Opening
pub mod Cancel
pub mod Next
pub mod Activate
pub mod Finish
pub mod Rules
use expense.Base.{
  ℕ, suc, ◌<◌, ◌≤◌, ◌≡◌, ◌⊎◌, ℤ, pos, ◌≤ℤ◌, ◌<ℤ◌, Bool, true, false, not, ◌&&◌, Option, none, some,
  List, All, find, any, count, is_some, is_none, ◌==◌,
}
use expense.Store.Rows.{
  Status, DecisionWord, is_approved, is_rejected, Transaction, Approval, ApprovalDecision,
}
use expense.Store.World.{Db}
use expense.Store.Transactions.{has_id}
use expense.Store.Approvals.{of_transaction, is_decided}
use expense.Store.Rules.{step_in_range}

-- The status of the transaction with this id, where there is one.
abbrev status_in : Option Transaction → Option Status
status_in none = none
status_in (some t) = some t.status

abbrev pub status_of : ℕ → List Transaction → Option Status
status_of id ts = status_in (find (has_id id) ts)

abbrev pub approves : ℕ → ApprovalDecision → Bool
approves id x = x.approval_id == id && is_approved x.decision

abbrev pub rejects : ℕ → ApprovalDecision → Bool
rejects id x = x.approval_id == id && is_rejected x.decision

-- An approval that its approver can decide.
abbrev pub is_open : ℕ → List ApprovalDecision → Approval → Bool
is_open tx ds a =
    of_transaction tx a
    && is_some a.activated_at
    && is_none a.cancelled_at
    && not (is_decided ds a.id)

-- Of a pending transaction no approval is cancelled, none that waits is decided, and every
-- decision is an approval.
pub record PendingRow (ds : List ApprovalDecision) (a : Approval) : Type 0 where
  pub not_cancelled : a.cancelled_at ≡ none
  pub decided_active : is_decided ds a.id ≡ true → is_some a.activated_at ≡ true
  pub none_rejects : any (rejects a.id) ds ≡ false

-- Of an approved transaction every approval stands and was approved by its approver.
pub record ApprovedRow (ds : List ApprovalDecision) (a : Approval) : Type 0 where
  pub not_cancelled : a.cancelled_at ≡ none
  pub was_active : is_some a.activated_at ≡ true
  pub was_decided : is_decided ds a.id ≡ true
  pub none_rejects : any (rejects a.id) ds ≡ false

-- Of a rejected transaction every approval is decided or cancelled.
abbrev pub RejectedRow : List ApprovalDecision → Approval → Type 0
RejectedRow ds a = (is_decided ds a.id ≡ true) ⊎ (is_some a.cancelled_at ≡ true)

-- A draft has no approvals.
abbrev pub Fits : Option Status → List ApprovalDecision → Approval → Type 0
Fits none ds a = ⊥
Fits (some Status.draft) ds a = ⊥
Fits (some Status.pending_approval) ds a = PendingRow ds a
Fits (some Status.approved) ds a = ApprovedRow ds a
Fits (some Status.rejected) ds a = RejectedRow ds a

abbrev pub RowOk : List Transaction → List ApprovalDecision → Approval → Type 0
RowOk ts ds a = Fits (status_of a.transaction_id ts) ds a

-- A later step is active only when the steps before it are decided.
abbrev pub InOrder : List ApprovalDecision → Approval → Approval → Type 0
InOrder ds a b =
    a.transaction_id ≡ b.transaction_id
    → is_some a.activated_at ≡ true
    → b.step <ℤ a.step
    → is_decided ds b.id ≡ true

-- Every pending transaction but `hole` has an approval that can be decided.
abbrev pub CanMove : Option ℕ → List Approval → List ApprovalDecision → Transaction → Type 0
CanMove hole approvals ds t =
    t.status ≡ Status.pending_approval
    → (hole ≡ some t.id) ⊎ (any (is_open t.id ds) approvals ≡ true)

-- A decision is about an approval, and was made by its approver.
abbrev pub MadeByApprover : List Approval → ApprovalDecision → Type 0
MadeByApprover approvals x =
    (a : Approval) × (find (λ b. b.id == x.approval_id) approvals ≡ some a)
    × (a.approver_id ≡ x.decided_by)

-- The invariant, where a request may be at work on a transaction: `hole` need not be able to move,
-- and the rows of `exempt` need not fit its status.
pub record Chains (hole exempt : Option ℕ) (d : Db) : Type 0 where
  pub transaction_ids : All (λ t. find (has_id t.id) d.transactions ≡ some t) d.transactions
  pub approval_ids : All (λ a. find (λ b. b.id == a.id) d.approvals ≡ some a) d.approvals
  pub steps : All (λ a. pos 1 ≤ℤ a.step) d.approvals
  pub rule_steps : All (λ r. step_in_range r.step ≡ true) d.rules
  pub approval_fresh : All (λ a. a.id < d.next_id) d.approvals
  pub decision_fresh : All (λ x. x.approval_id < d.next_id) d.decisions
  pub rows :
      All (λ a. (exempt ≡ some a.transaction_id) ⊎ RowOk d.transactions d.decisions a) d.approvals
  pub once : All (λ a. count (λ x. x.approval_id == a.id) d.decisions ≤ 1) d.approvals
  pub in_order : All (λ a. All (InOrder d.decisions a) d.approvals) d.approvals
  pub made : All (MadeByApprover d.approvals) d.decisions
  pub can_move : All (CanMove hole d.approvals d.decisions) d.transactions

-- Between requests no transaction is left out.
abbrev pub IsValid : Db → Type 0
IsValid = Chains none none
