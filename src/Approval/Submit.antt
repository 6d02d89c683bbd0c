-- ===== src/Approval/Submit.antt =====
-- internal/service/approval/engine.go: a draft is submitted, and its chain of approvals is made
-- from the rules.
use expense.Base.{
  ℕ, not, ◌&&◌, ◌||◌, ◌==◌, Option, none, some, List, [], ◌∷◌, Text, codes, text_eq, ℤ, pos, leb_ℤ,
  eq_ℤ, ltb, length, any, is_some, is_none, if◌then◌else◌,
}
use expense.Store.Rows.{Status, status_eq, Transaction, Approval, ApprovalRule, Payload, Topic}
use expense.Store.World.{
  Error, failure, not_found, invalid_transition, submit_validation, no_approver_resolved, UserInfo,
  M, pure, raise, raise_if, ◌>>=◌, ◌>>◌, run, ask, map_error, exec_tx,
}
use expense.Store.Transactions.{
  get_transaction, lock_transaction, count_transaction_documents, submit_transaction,
}
use expense.Store.Approvals.{NewApproval, create_approval, list_approvals_by_transaction}
use expense.Store.Rules.{resolve_project_rules, resolve_default_rules}
use expense.Store.Outbox.{emit}
use expense.Authz.{Actor, transaction_view, check_org_write, check_admin, can}
use expense.Approval.Notify.{unknown, emit_step_activated}

-- `if errors.Is(err, pgx.ErrNoRows) { return service.ErrNotFound }`.
abbrev pub or_not_found : Error → Error
or_not_found Error.no_rows = not_found
or_not_found e = e

-- The organization's rules where the project has none.
unfoldable pub or_default_rules : Actor → List ApprovalRule → M (List ApprovalRule)
or_default_rules actor rules =
    if length rules == 0 then run (resolve_default_rules actor.org_id) else pure rules

unfoldable pub resolve_rules : Actor → Transaction → M (List ApprovalRule)
unfolding or_default_rules
resolve_rules actor t = do
  rules ← run (resolve_project_rules actor.org_id t.project_id)
  or_default_rules actor rules

-- The approvers in the order of their first rule, each with the organization.
pub approver_pairs : (org_id : ℕ) → (seen : List ℕ) → List ApprovalRule → List (ℕ × ℕ)
approver_pairs org seen [] = []
approver_pairs org seen (r ∷ rs) =
    let old = any (λ x. x == r.approver_id) seen in
    let rest = approver_pairs org (if old then seen else r.approver_id ∷ seen) rs in
    if old then rest else (r.approver_id, org) ∷ rest

-- A lookup in `approverInfo`: of two answers for one user the later stays in the map.
unfoldable pub user_info : List UserInfo → ℕ → Option UserInfo
user_info [] id = none
user_info (u ∷ us) id =
    let rest = user_info us id in
    if is_some rest then rest else if u.user_id == id then some u else none

unfoldable pub approver_name : List UserInfo → ℕ → Text
unfolding user_info
approver_name users id = elim (user_info users id) [
  | none ↦ unknown
  | some u ↦ if text_eq u.name [] then unknown else u.name
]

unfoldable pub approver_email : List UserInfo → ℕ → Text
unfolding user_info
approver_email users id = elim (user_info users id) [
  | none ↦ unknown
  | some u ↦ if text_eq u.email [] then unknown else u.email
]

-- GetUsersInfo degrades to no information.
abbrev pub or_no_users : Option (List UserInfo) → List UserInfo
or_no_users none = []
or_no_users (some us) = us

abbrev pub or_failure : {A : Type 0} → Option A → M A
or_failure none = raise failure
or_failure (some a) = pure a

-- service.go.
unfoldable pub member_role : (org_id user_id : ℕ) → M Text
member_role org user = do
  answer ← ask (λ env t. env.identity.get_member_role t org user)
  or_failure answer

-- CreateApprovalParams of one rule.
abbrev pub approval_for :
    Transaction
    → List UserInfo
    → (first_step : ℤ) (now : ℕ) (role : Text) → ApprovalRule
    → NewApproval
approval_for t users first_step now role r = record {
  transaction_id = t.id;
  approver_id = r.approver_id;
  approver_name = approver_name users r.approver_id;
  approver_email = approver_email users r.approver_id;
  approver_role = role;
  step = r.step;
  activated_at = if eq_ℤ r.step first_step then some now else none;
}

-- One round of the loop over the rules.
unfoldable pub create_one :
    Actor → Transaction → List UserInfo → (first_step : ℤ) → ApprovalRule → M (Unit {0})
create_one actor t users first_step r = do
  now ← ask (λ env time. env.now time)
  role ← member_role actor.org_id r.approver_id
  run (create_approval (approval_for t users first_step now role r))

-- The loop; it returns `firstApproverID`, the approver of the last rule of the first step.
unfoldable pub create_approvals :
    Actor
    → Transaction
    → List UserInfo
    → (first_step : ℤ) → (first_approver : ℕ) → List ApprovalRule
    → M ℕ
unfolding create_one
create_approvals actor t users first_step first [] = pure first
create_approvals actor t users first_step first (r ∷ rs) = do
  create_one actor t users first_step r
  create_approvals actor t users first_step
      (if eq_ℤ r.step first_step then r.approver_id else first) rs

abbrev pub or_empty : Option Text → Text
or_empty none = []
or_empty (some t) = t

-- The first approver is notified, unless it is uuid.Nil.
unfoldable pub notify_first :
    Transaction → List UserInfo → (first_step : ℤ) (approver : ℕ) → M (Unit {0})
unfolding approver_name approver_email
notify_first t users first_step approver =
    if approver == 0
    then pure tt
    else emit_step_activated t.id approver (approver_name users approver)
        (approver_email users approver) (or_empty t.description) t.total_amount t.currency
        first_step

-- What follows once the rules are known: `rules[0]` is there, since there is a rule.
unfoldable pub open_chain : Actor → (tx_id : ℕ) → Transaction → List ApprovalRule → M (Unit {0})
unfolding approver_pairs create_approvals notify_first
open_chain actor tx t [] = raise no_approver_resolved
open_chain actor tx t (r ∷ rs) = do
  rows ← run (submit_transaction tx)
  raise_if (rows == 0) invalid_transition
  answer ←
      ask (λ env time. env.identity.get_users_info time (approver_pairs actor.org_id [] (r ∷ rs)))
  let users = or_no_users answer
  first ← create_approvals actor t users r.step 0 (r ∷ rs)
  notify_first t users r.step first
  emit (codes "transaction") t.id Topic.audit
      (Payload.transaction_submitted actor.org_id t.id actor.user_id)

unfoldable pub open_with_rules : Actor → (tx_id : ℕ) → Transaction → M (Unit {0})
unfolding resolve_rules open_chain
open_with_rules actor tx t = do rules ← resolve_rules actor t; open_chain actor tx t rules

unfoldable pub submit_body : Actor → (tx_id : ℕ) → M (Unit {0})
unfolding open_with_rules
submit_body actor tx = do
  t ← map_error or_not_found (run (lock_transaction tx))
  raise_if (not (t.organization_id == actor.org_id)) not_found
  raise_if (is_some t.deleted_at || not (status_eq t.status Status.draft)) invalid_transition
  docs ← run (count_transaction_documents t.id)
  raise_if (ltb docs 1 || leb_ℤ t.total_amount (pos 0)) submit_validation
  open_with_rules actor tx t

unfoldable pub submit_tx : Actor → (tx_id : ℕ) → M (Unit {0})
unfolding submit_body
submit_tx actor tx = exec_tx (submit_body actor tx)

pub record SubmitResult : Type 0 where
  pub transaction_id : ℕ
  pub status : Status
  pub first_approver_id : ℕ

abbrev pub first_activated : List Approval → ℕ
first_activated [] = 0
first_activated (a ∷ others) =
    let rest = first_activated others in
    if is_some a.activated_at && is_none a.cancelled_at then a.approver_id else rest

unfoldable pub first_activated_approver : (tx_id : ℕ) → M ℕ
first_activated_approver tx = do
  approvals ← run (list_approvals_by_transaction tx)
  pure (first_activated approvals)

-- The checks before the database transaction: the creator or an admin submits.
unfoldable pub check_submit : Actor → (tx_id : ℕ) → M (Unit {0})
check_submit actor tx = do
  check_org_write actor
  t ← map_error or_not_found (run (get_transaction tx actor.org_id))
  can actor t.project_id transaction_view
  if t.created_by == actor.user_id then pure tt else check_admin actor

unfoldable pub submit_result : (tx_id : ℕ) → M SubmitResult
unfolding first_activated_approver
submit_result tx = do
  first ← first_activated_approver tx
  pure (record { transaction_id = tx; status = Status.pending_approval; first_approver_id = first })

unfoldable pub submit : Actor → (tx_id : ℕ) → M SubmitResult
unfolding check_submit submit_tx submit_result
submit actor tx = do check_submit actor tx; submit_tx actor tx; submit_result tx
