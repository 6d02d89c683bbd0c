-- ===== src/Store/Approvals.antt =====
-- The statements of internal/repository/approvals.sql.go.
use expense.Base.{
  ℕ, suc, Bool, not, ◌&&◌, ◌||◌, Option, none, some, List, [], ◌∷◌, ◌++◌, Text, ℤ, ltb_ℤ, eq_ℤ, ltb,
  filter, find, any, count, update, sort_by, is_none, if◌then◌else◌, ◌==◌,
}
use expense.Store.Rows.{DecisionWord, Transaction, Approval, ApprovalDecision}
use expense.Store.World.{ok, err, no_rows, unique_violation, failure, Statement}
use expense.Store.Transactions.{has_id}

-- `a.transaction_id = $1`.
abbrev pub of_transaction : ℕ → Approval → Bool
of_transaction tx a = a.transaction_id == tx

-- EXISTS (SELECT 1 FROM approval_decisions d WHERE d.approval_id = id).
abbrev pub is_decided : List ApprovalDecision → ℕ → Bool
is_decided ds id = any (λ x. x.approval_id == id) ds

-- CreateApprovalParams.
pub record NewApproval : Type 0 where
  pub transaction_id : ℕ
  pub approver_id : ℕ
  pub approver_name : Text
  pub approver_email : Text
  pub approver_role : Text
  pub step : ℤ
  pub activated_at : Option ℕ

abbrev pub approval_row : (now id : ℕ) → NewApproval → Approval
approval_row now id p = record {
  id = id;
  transaction_id = p.transaction_id;
  approver_id = p.approver_id;
  approver_name = p.approver_name;
  approver_email = p.approver_email;
  approver_role = p.approver_role;
  step = p.step;
  activated_at = p.activated_at;
  cancelled_at = none;
  created_at = now;
}

-- The unique index `ux_approvals_tx_approver` lets an approver appear once in a transaction.
unfoldable pub create_approval : NewApproval → Statement (Unit {0})
create_approval p now d =
    if any (λ a. a.transaction_id == p.transaction_id && a.approver_id == p.approver_id) d.approvals
    then (err unique_violation, d)
    else (
      ok tt,
      record d {
        approvals = d.approvals ++ approval_row now d.next_id p ∷ [];
        next_id = suc d.next_id;
      },
    )

-- ORDER BY step ASC, created_at ASC.
abbrev pub in_step_order : Approval → Approval → Bool
in_step_order a b = ltb_ℤ a.step b.step || (eq_ℤ a.step b.step && ltb a.created_at b.created_at)

unfoldable pub list_approvals_by_transaction : (transaction_id : ℕ) → Statement (List Approval)
list_approvals_by_transaction tx now d =
    (ok (sort_by in_step_order (filter (of_transaction tx) d.approvals)), d)

-- The join keeps the decisions whose approval belongs to the transaction.
unfoldable pub list_decisions_by_transaction :
    (transaction_id : ℕ) → Statement (List ApprovalDecision)
list_decisions_by_transaction tx now d = (
  ok (
      sort_by (λ x y. ltb x.decided_at y.decided_at)
        (filter (λ x. any (λ a. a.id == x.approval_id && of_transaction tx a) d.approvals)
          d.decisions)),
  d,
)

-- GetApprovalForDecideRow: the approval beside its transaction.
pub record ApprovalForDecide : Type 0 where
  pub approval : Approval
  pub transaction : Transaction

unfoldable pub get_approval_for_decide : (id : ℕ) → Statement ApprovalForDecide
get_approval_for_decide id now d = elim (find (λ a. a.id == id) d.approvals) [
  | none ↦ (err no_rows, d)
  | some a ↦ elim (find (has_id a.transaction_id) d.transactions) [
    | none ↦ (err no_rows, d)
    | some t ↦ (ok (record { approval = a; transaction = t }), d)
  ]
]

unfoldable pub approval_has_decision : (approval_id : ℕ) → Statement Bool
approval_has_decision id now d = (ok (is_decided d.decisions id), d)

-- CreateApprovalDecisionParams.
pub record NewDecision : Type 0 where
  pub approval_id : ℕ
  pub decided_by : ℕ
  pub decided_by_name : Text
  pub decided_by_email : Text
  pub decided_by_role : Text
  pub decision : DecisionWord
  pub notes : Option Text

abbrev pub decision_row : (now id : ℕ) → NewDecision → ApprovalDecision
decision_row now id p = record {
  id = id;
  approval_id = p.approval_id;
  decided_by = p.decided_by;
  decided_by_name = p.decided_by_name;
  decided_by_email = p.decided_by_email;
  decided_by_role = p.decided_by_role;
  decision = p.decision;
  notes = p.notes;
  decided_at = now;
}

unfoldable pub insert_decision : NewDecision → Statement (Unit {0})
insert_decision p now d = (
  ok tt,
  record d {
    decisions = d.decisions ++ decision_row now d.next_id p ∷ [];
    next_id = suc d.next_id;
  },
)

-- `ck_approval_decisions_decision` admits the two words only.
unfoldable pub create_approval_decision : NewDecision → Statement (Unit {0})
unfolding insert_decision
create_approval_decision p now d = elim p.decision [
  | DecisionWord.approved ↦ insert_decision p now d
  | DecisionWord.rejected ↦ insert_decision p now d
  | DecisionWord.other _ ↦ (err failure, d)
]

abbrev pub is_cancellable : ℕ → List ApprovalDecision → Approval → Bool
is_cancellable tx ds a = of_transaction tx a && is_none a.cancelled_at && not (is_decided ds a.id)

unfoldable pub cancel_pending_approvals : (transaction_id : ℕ) → Statement ℕ
cancel_pending_approvals tx now d = (
  ok (count (is_cancellable tx d.decisions) d.approvals),
  record d {
    approvals =
        update (is_cancellable tx d.decisions) (λ a. record a { cancelled_at = some now })
          d.approvals;
  },
)

abbrev pub is_waiting : ℕ → ℤ → Approval → Bool
is_waiting tx step a =
    of_transaction tx a && eq_ℤ a.step step && is_none a.activated_at && is_none a.cancelled_at

unfoldable pub activate_approval_step : (transaction_id : ℕ) (step : ℤ) → Statement ℕ
activate_approval_step tx step now d = (
  ok (count (is_waiting tx step) d.approvals),
  record d {
    approvals = update (is_waiting tx step) (λ a. record a { activated_at = some now }) d.approvals;
  },
)
