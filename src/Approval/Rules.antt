-- ===== src/Approval/Rules.antt =====
-- internal/service/approval/service.go and reassign.go: the rules that say who approves.
use expense.Base.{
  ℕ, Bool, not, ◌||◌, ◌==◌, Option, none, some, List, [], ◌∷◌, Text, codes, ℤ, pos, ltb_ℤ, ltb, leb,
  length, map, is_none, if◌then◌else◌,
}
use expense.Store.Rows.{ApprovalRule, Payload, Topic}
use expense.Store.World.{
  Error, not_found, invalid_transition, invalid_action, approver_not_member,
  approver_already_exists, last_approval_rule, UserInfo, M, pure, raise_if, ◌>>=◌, ◌>>◌, run, ask,
  map_error, exec_tx,
}
use expense.Store.Projects.{get_project}
use expense.Store.Rules.{
  NewRule, create_approval_rule, get_approval_rule, list_approval_rules, update_approval_rule_step,
  soft_delete_approval_rule, count_default_org_rules, list_rules_by_approver,
  reassign_approval_rules,
}
use expense.Store.Outbox.{emit}
use expense.Authz.{Actor, check_admin, check_org_write, is_member_active}
use expense.Approval.Notify.{unknown}
use expense.Approval.Submit.{or_not_found}

pub record ActorSnapshot : Type 0 where
  pub id : ℕ
  pub name : Text
  pub email : Text
  pub role : Text

pub record Rule : Type 0 where
  pub id : ℕ
  pub project_id : Option ℕ
  pub approver_id : ℕ
  pub approver : ActorSnapshot
  pub step : ℤ

pub record CreateRuleInput : Type 0 where
  pub project_id : Option ℕ
  pub approver_id : ℕ
  pub step : ℤ

-- `err == nil && len(users) > 0`, else the unknown snapshot.
abbrev snapshot_of : (approver_id : ℕ) → Option (List UserInfo) → ActorSnapshot
snapshot_of id (some (u ∷ us)) = record { id = id; name = u.name; email = u.email; role = u.role }
snapshot_of id _ = record { id = id; name = unknown; email = unknown; role = [] }

unfoldable pub to_rule : (org_id : ℕ) → ApprovalRule → M Rule
to_rule org r = do
  users ← ask (λ env t. env.identity.get_users_info t ((r.approver_id, org) ∷ []))
  pure (record {
    id = r.id;
    project_id = r.project_id;
    approver_id = r.approver_id;
    approver = snapshot_of r.approver_id users;
    step = r.step;
  })

abbrev pub out_of_range : ℤ → Bool
out_of_range step = ltb_ℤ step (pos 1) || ltb_ℤ (pos 10) step

abbrev pub or_already_exists : Error → Error
or_already_exists Error.unique_violation = approver_already_exists
or_already_exists e = e

abbrev pub or_no_rule : Error → Error
or_no_rule Error.no_rows = not_found
or_no_rule Error.unique_violation = approver_already_exists
or_no_rule e = e

-- The project of the rule, where it has one, is a live one of the organization.
unfoldable pub check_project : (org_id : ℕ) → Option ℕ → M (Unit {0})
check_project org none = pure tt
check_project org (some project) = map_error or_not_found (run (get_project project org)) >> pure tt

unfoldable pub check_create_rule : Actor → CreateRuleInput → M (Unit {0})
unfolding check_project
check_create_rule actor input = do
  check_admin actor
  check_org_write actor
  raise_if (out_of_range input.step) invalid_transition
  active ← is_member_active actor input.approver_id
  raise_if (not active) approver_not_member
  check_project actor.org_id input.project_id

abbrev pub new_rule : Actor → CreateRuleInput → NewRule
new_rule actor input = record {
  organization_id = actor.org_id;
  project_id = input.project_id;
  approver_id = input.approver_id;
  step = input.step;
  created_by = actor.user_id;
}

unfoldable pub create_rule_body : Actor → CreateRuleInput → M ApprovalRule
create_rule_body actor input = do
  r ← map_error or_already_exists (run (create_approval_rule (new_rule actor input)))
  emit (codes "approval_rule") r.id Topic.audit (
      Payload.rule_created actor.org_id input.project_id input.approver_id input.step actor.user_id)
  pure r

unfoldable pub create_rule : Actor → CreateRuleInput → M Rule
unfolding check_create_rule create_rule_body to_rule
create_rule actor input = do
  check_create_rule actor input
  created ← exec_tx (create_rule_body actor input)
  to_rule actor.org_id created

pub to_rules : (org_id : ℕ) → List ApprovalRule → M (List Rule)
to_rules org [] = pure []
to_rules org (r ∷ rs) = do rule ← to_rule org r; rules ← to_rules org rs; pure (rule ∷ rules)

unfoldable pub list_rules : Actor → (project_id : Option ℕ) → M (List Rule)
unfolding to_rules to_rule
list_rules actor project = do
  check_admin actor
  rows ← run (list_approval_rules actor.org_id project)
  to_rules actor.org_id rows

unfoldable pub update_rule_body : Actor → (id : ℕ) (step : ℤ) → M ApprovalRule
update_rule_body actor id step = do
  r ← map_error or_no_rule (run (update_approval_rule_step id actor.org_id step))
  emit (codes "approval_rule") id Topic.audit
      (Payload.rule_updated actor.org_id id step actor.user_id)
  pure r

unfoldable pub update_rule : Actor → (id : ℕ) (step : ℤ) → M Rule
unfolding update_rule_body to_rule
update_rule actor id step = do
  check_admin actor
  raise_if (out_of_range step) invalid_transition
  updated ← exec_tx (update_rule_body actor id step)
  to_rule actor.org_id updated

-- The last rule of the whole organization is not deleted.
unfoldable pub check_default_left : (org_id : ℕ) → M (Unit {0})
check_default_left org = do
  count ← run (count_default_org_rules org)
  raise_if (leb count 1) last_approval_rule

unfoldable pub check_not_last : (org_id : ℕ) → ApprovalRule → M (Unit {0})
unfolding check_default_left
check_not_last org rule = if is_none rule.project_id then check_default_left org else pure tt

unfoldable pub check_delete_rule : Actor → (id : ℕ) → M (Unit {0})
unfolding check_not_last
check_delete_rule actor id = do
  check_admin actor
  rule ← map_error or_not_found (run (get_approval_rule id actor.org_id))
  check_not_last actor.org_id rule

unfoldable pub delete_rule_body : Actor → (id : ℕ) → M (Unit {0})
delete_rule_body actor id = do
  rows ← run (soft_delete_approval_rule id actor.org_id)
  raise_if (rows == 0) not_found
  emit (codes "approval_rule") id Topic.audit (Payload.rule_deleted actor.org_id id actor.user_id)

unfoldable pub delete_rule : Actor → (id : ℕ) → M (Unit {0})
unfolding check_delete_rule delete_rule_body
delete_rule actor id = do check_delete_rule actor id; exec_tx (delete_rule_body actor id)

-- ApproverRuleRef: the rule's id, project and step.
unfoldable pub approver_assignments : (org_id user_id : ℕ) → M (Bool × List (ℕ × Option ℕ × ℤ))
approver_assignments org user = do
  rules ← run (list_rules_by_approver org user)
  pure (ltb 0 (length rules), map (λ r. (r.id, r.project_id, r.step)) rules)

-- `authz.Actor{OrgID: orgID}`.
abbrev pub of_organization : (org_id : ℕ) → Actor
of_organization org = record { user_id = 0; org_id = org; role = [] }

unfoldable pub reassign_body : (org_id from_id to_id actor_id : ℕ) → M ℕ
reassign_body org from to actor = do
  rules ← run (list_rules_by_approver org from)
  raise_if (length rules == 0) not_found
  rows ← run (reassign_approval_rules org from to)
  raise_if (rows == 0) not_found
  emit (codes "approval_rule") from Topic.audit (Payload.rule_reassigned org from to rows actor)
  pure rows

unfoldable pub reassign_rules : (org_id from_id to_id actor_id : ℕ) → M ℕ
unfolding reassign_body
reassign_rules org from to actor = do
  raise_if (from == to) invalid_action
  active ← is_member_active (of_organization org) to
  raise_if (not active) approver_not_member
  map_error or_already_exists (exec_tx (reassign_body org from to actor))
