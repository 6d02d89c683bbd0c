-- ===== src/Approval/Examples.antt =====
-- The theorems on the runs of one transaction.
use expense.Base.{
  some, negsuc, ◌≤◌, ◌≡◌, refl, true, false, All, Pairwise, codes, arith, count, any, ◌==◌,
}
use expense.Amount.{format_amount, group_digits, group_text, write_groups, format_int, decimal}
use expense.Approval.RuleChanges.{RuleRequest, after_rules}
use expense.Approval.LastRule.{HasDefault}
use expense.Approval.Defaults.{after_rules-HasDefault}
use expense.Approval.Rules.{
  delete_rule, check_delete_rule, check_not_last, check_default_left, delete_rule_body,
}
use expense.Authz.{check_admin, is_admin}
use expense.Approval.Guards.{
  InTurn, decide_only-InTurn, decide-atomic, Submittable, submit_only_drafts,
}
use expense.Approval.Outcomes.{
  approved_by_all, pending_can_move, rejected_is_closed, steps_in_order, decided_once,
  GivenByApprover,
}
use expense.Store.World.{Db, Env, ok, err, last_approval_rule, run, ask, finish_tx, exec_tx}
use expense.Store.Approvals.{is_decided}
use expense.Store.Rules.{get_approval_rule, count_default_org_rules, soft_delete_approval_rule}
use expense.Store.Outbox.{create_outbox_event, emit}
use expense.Approval.Decide.{decide}
use expense.Approval.Chain.{is_open, IsValid}
use expense.Approval.Requests.{Request, Reachable, Reachable-IsValid}
use expense.Approval.Scenarios.{
  identity, creator, first_approver, last_approver, start, quiet, world, submitted_db, approving,
  rejecting, halfway, finished, refused, pending_row, approved_row, rejected_row, first_row,
  last_row, submit_result_row, halfway_result, runs,
}

submitted-Reachable : Reachable start submitted_db
submitted-Reachable =
    Reachable.then_served Reachable.at_first (Request.whole_submit creator 1) quiet 0

halfway-Reachable : Reachable start halfway
halfway-Reachable =
    Reachable.then_served submitted-Reachable (Request.one_decide first_approver 100 approving)
      quiet 0

finished-Reachable : Reachable start finished
finished-Reachable =
    Reachable.then_served halfway-Reachable (Request.one_decide last_approver 101 approving) quiet 0

refused-Reachable : Reachable start refused
refused-Reachable =
    Reachable.then_served submitted-Reachable (Request.one_decide first_approver 100 rejecting)
      quiet 0

start-IsValid : IsValid start
start-IsValid = record {
  transaction_ids = All.also refl All.none;
  approval_ids = All.none;
  steps = All.none;
  rule_steps = All.also refl (All.also refl All.none);
  approval_fresh = All.none;
  decision_fresh = All.none;
  rows = All.none;
  once = All.none;
  in_order = All.none;
  made = All.none;
  can_move = All.also (λ e. cc) All.none;
}

submitted-IsValid : IsValid submitted_db
submitted-IsValid = Reachable-IsValid start-IsValid submitted-Reachable

Reachable-IsValid_example : IsValid finished
Reachable-IsValid_example = Reachable-IsValid start-IsValid finished-Reachable

approved_by_all_example : GivenByApprover finished last_row
approved_by_all_example =
    approved_by_all start-IsValid finished-Reachable approved_row last_row runs.1 refl runs.4 refl

pending_can_move_example : any (is_open 1 halfway.decisions) halfway.approvals ≡ true
pending_can_move_example = pending_can_move start-IsValid halfway-Reachable pending_row runs.0 refl

rejected_is_closed_example : is_open 1 refused.decisions first_row ≡ false
rejected_is_closed_example =
    rejected_is_closed start-IsValid refused-Reachable rejected_row first_row runs.2 refl runs.5

steps_in_order_example : is_decided finished.decisions 100 ≡ true
steps_in_order_example =
    steps_in_order start-IsValid finished-Reachable last_row first_row runs.4 runs.3 refl refl
      (omega arith)

decided_once_example : count (λ x. x.approval_id == 100) finished.decisions ≤ 1
decided_once_example = decided_once start-IsValid finished-Reachable first_row runs.3

decide_only-InTurn_example : InTurn first_approver 100 approving submitted_db
decide_only-InTurn_example =
    decide_only-InTurn first_approver 100 approving quiet (world submitted_db) halfway_result
      submitted-IsValid runs.7

-- The first step is decided, and its approver tries again.
decide-atomic_example : (decide first_approver 100 approving quiet (world halfway)).1.db ≡ halfway
decide-atomic_example = decide-atomic first_approver 100 approving quiet (world halfway) runs.8

submit_only_drafts_example : Submittable creator 1 start
submit_only_drafts_example =
    submit_only_drafts creator 1 quiet (world start) submit_result_row runs.6

grouping : format_amount (negsuc 1499999) (codes "IDR") ≡ some (codes "Rp-1.500.000")
unfolding format_amount group_digits group_text write_groups format_int decimal
grouping = refl

-- An owner deletes one of the two default rules, and then tries to delete the other.
abbrev owner_env : Env
owner_env = record quiet {
  identity = record identity { get_member_role = λ _ _ _. some (codes "owner") };
}

abbrev one_rule : Db
one_rule = after_rules (RuleRequest.one_delete creator 10) owner_env (world start)

deletions :
    ((delete_rule creator 10 owner_env (world start)).0 ≡ ok tt)
    × ((delete_rule creator 11 owner_env (world one_rule)).0 ≡ err last_approval_rule)
unfolding after_rules delete_rule check_delete_rule check_admin is_admin get_approval_rule
    check_not_last check_default_left count_default_org_rules delete_rule_body
    soft_delete_approval_rule emit create_outbox_event exec_tx finish_tx run ask
deletions = (refl, refl)

after_rules-HasDefault_example : HasDefault 3 one_rule
after_rules-HasDefault_example =
    after_rules-HasDefault 3 (RuleRequest.one_delete creator 10) owner_env (world start) (record {
      ids = Pairwise.also (All.also refl All.none) (Pairwise.also All.none Pairwise.none);
      fresh = All.also (omega arith) (All.also (omega arith) All.none);
      left = refl;
    })
