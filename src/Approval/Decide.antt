-- ===== src/Approval/Decide.antt =====
-- internal/service/approval/engine.go: an approver decides, and the chain moves on.
use expense.Base.{
  ℕ, Bool, true, false, not, ◌&&◌, ◌||◌, ◌==◌, Option, none, some, List, [], ◌∷◌, Text, codes,
  text_eq, trim_space, ℤ, pos, negsuc, eq_ℤ, ltb_ℤ, find, is_some, is_none, if◌then◌else◌,
}
use expense.Store.Rows.{
  Status, status_eq, DecisionWord, is_approved, is_rejected, Approval, ApprovalDecision, Payload,
  Topic,
}
use expense.Store.World.{
  not_found, invalid_transition, submit_validation, not_your_turn, forbidden, M, pure, raise_if,
  ◌>>=◌, ◌>>◌, run, map_error, exec_tx,
}
use expense.Store.Transactions.{approve_transaction, reject_transaction}
use expense.Store.Approvals.{
  is_decided, ApprovalForDecide, NewDecision, list_approvals_by_transaction,
  list_decisions_by_transaction, get_approval_for_decide, approval_has_decision,
  create_approval_decision, cancel_pending_approvals, activate_approval_step,
}
use expense.Store.Outbox.{emit}
use expense.Authz.{Actor, is_member_active}
use expense.Approval.Notify.{unknown, emit_step_activated, emit_decision_received}
use expense.Approval.Submit.{or_not_found, or_empty}

-- `repository.Approval{}`.
abbrev pub no_approval : Approval
no_approval = record {
  id = 0;
  transaction_id = 0;
  approver_id = 0;
  approver_name = [];
  approver_email = [];
  approver_role = [];
  step = pos 0;
  activated_at = none;
  cancelled_at = none;
  created_at = 0;
}

-- One round of the loop that looks for the next step: -1 means that none is found yet.
abbrev pub advance : ℤ → Approval → ℤ
advance next a =
    if is_none a.cancelled_at
      && is_none a.activated_at
      && (eq_ℤ next (negsuc 0) || ltb_ℤ a.step next)
    then a.step
    else next

-- A sibling that is active and still owes a decision.
abbrev pub is_owing : List ApprovalDecision → Approval → Bool
is_owing ds a = is_none a.cancelled_at && is_some a.activated_at && not (is_decided ds a.id)

-- `none` where an active approval still owes its decision, else the step that the loop finds.
unfoldable pub find_next_step : List ApprovalDecision → ℤ → List Approval → Option ℤ
find_next_step ds next [] = some next
find_next_step ds next (a ∷ others) =
    let rest = find_next_step ds (advance next a) others in if is_owing ds a then none else rest

abbrev first_in_step : ℤ → List Approval → Approval
first_in_step step approvals =
    elim (find (λ a. eq_ℤ a.step step && is_none a.cancelled_at) approvals) [
      | none ↦ no_approval
      | some a ↦ a
    ]

unfoldable pub activate_step : (tx_id : ℕ) → List Approval → ℤ → M (Bool × Approval)
activate_step tx approvals step =
    if eq_ℤ step (negsuc 0)
    then run (approve_transaction tx) >> pure (false, no_approval)
    else run (activate_approval_step tx step) >> pure (true, first_in_step step approvals)

-- What follows the loop.
unfoldable pub follow : (tx_id : ℕ) → List Approval → Option ℤ → M (Bool × Approval)
unfolding activate_step
follow tx approvals none = pure (false, no_approval)
follow tx approvals (some step) = activate_step tx approvals step

-- Whether a step went active, and the approval to notify.
unfoldable pub activate_next : (tx_id : ℕ) → M (Bool × Approval)
unfolding find_next_step follow
activate_next tx = do
  approvals ← run (list_approvals_by_transaction tx)
  decisions ← run (list_decisions_by_transaction tx)
  follow tx approvals (find_next_step decisions (negsuc 0) approvals)

pub record DecideInput : Type 0 where
  pub decision : DecisionWord
  pub notes : Option Text

-- ApprovalStateView, whose `State` is always "decided" here.
pub record ApprovalStateView : Type 0 where
  pub id : ℕ
  pub step : ℤ
  pub approver_id : ℕ
  pub approver_name : Text
  pub approver_email : Text
  pub activated_at : Option ℕ

pub record DecideResult : Type 0 where
  pub approval : ApprovalStateView
  pub transaction_status : Status
  pub next_step_activated : Bool

abbrev pub is_blank : Option Text → Bool
is_blank none = true
is_blank (some notes) = text_eq (trim_space notes) []

-- The checks on the input, before any statement.
unfoldable pub check_decision : DecideInput → M (Unit {0})
check_decision input = do
  raise_if (not (is_approved input.decision) && not (is_rejected input.decision)) invalid_transition
  raise_if (is_rejected input.decision && is_blank input.notes) submit_validation

-- The checks on the approval's row, each with its error.
unfoldable pub check_turn : Actor → ApprovalForDecide → M (Unit {0})
check_turn actor x = do
  raise_if (not (x.transaction.organization_id == actor.org_id)) not_found
  raise_if (not (status_eq x.transaction.status Status.pending_approval)) invalid_transition
  raise_if (is_none x.approval.activated_at) not_your_turn
  raise_if (is_some x.approval.cancelled_at) invalid_transition
  has ← run (approval_has_decision x.approval.id)
  raise_if has invalid_transition
  raise_if (not (x.approval.approver_id == actor.user_id)) forbidden
  active ← is_member_active actor actor.user_id
  raise_if (not active) forbidden

-- A rejection ends the chain, an approval moves it on.
unfoldable pub move_on : DecisionWord → (tx_id : ℕ) → M (Bool × Approval)
unfolding activate_next
move_on decision tx =
    if is_rejected decision
    then run (reject_transaction tx)
      >> (run (cancel_pending_approvals tx) >> pure (false, no_approval))
    else activate_next tx

abbrev pub decision_of : Actor → ApprovalForDecide → DecideInput → NewDecision
decision_of actor x input = record {
  approval_id = x.approval.id;
  decided_by = actor.user_id;
  decided_by_name = unknown;
  decided_by_email = unknown;
  decided_by_role = actor.role;
  decision = input.decision;
  notes = input.notes;
}

-- The creator hears of the decision, and the next approver of the turn.
unfoldable pub announce :
    Actor → ApprovalForDecide → DecideInput → (next : Bool × Approval) → M (Unit {0})
announce actor x input next = do
  let t = x.transaction
  let description = or_empty t.description
  emit_decision_received t.id t.created_by t.created_by_email t.created_by_name description
      t.total_amount t.currency input.decision x.approval.approver_name
  (if next.0
      then emit_step_activated t.id next.1.approver_id next.1.approver_name next.1.approver_email
          description t.total_amount t.currency next.1.step
      else pure tt)
  emit (codes "transaction") t.id Topic.audit
      (Payload.transaction_decided actor.org_id t.id x.approval.id input.decision actor.user_id)

-- `tStatus`.
abbrev pub status_after : DecisionWord → (next_step_activated : Bool) → Status
status_after decision activated =
    if is_rejected decision
    then Status.rejected
    else if activated
    then Status.pending_approval
    else Status.approved

abbrev pub decide_result : ApprovalForDecide → DecideInput → Bool → DecideResult
decide_result x input activated = record {
  approval = record {
    id = x.approval.id;
    step = x.approval.step;
    approver_id = x.approval.approver_id;
    approver_name = x.approval.approver_name;
    approver_email = x.approval.approver_email;
    activated_at = x.approval.activated_at;
  };
  transaction_status = status_after input.decision activated;
  next_step_activated = activated;
}

-- What follows the checks.
unfoldable pub settle : Actor → ApprovalForDecide → DecideInput → M DecideResult
unfolding move_on announce
settle actor x input = do
  run (create_approval_decision (decision_of actor x input))
  next ← move_on input.decision x.approval.transaction_id
  announce actor x input next
  pure (decide_result x input next.0)

unfoldable pub decide_body : Actor → (approval_id : ℕ) → DecideInput → M DecideResult
unfolding check_turn settle
decide_body actor id input = do
  x ← map_error or_not_found (run (get_approval_for_decide id))
  check_turn actor x
  settle actor x input

unfoldable pub decide : Actor → (approval_id : ℕ) → DecideInput → M DecideResult
unfolding check_decision decide_body
decide actor id input = do check_decision input; exec_tx (decide_body actor id input)
