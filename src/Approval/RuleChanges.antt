-- ===== src/Approval/RuleChanges.antt =====
-- What the requests on rules keep, by what their statements keep.
use expense.Base.{ℕ, inl, inr, not, ◌==◌, Option, none, some, ℤ, is_none, length, leb, Bool-cases}
use expense.Store.Rows.{ApprovalRule}
use expense.Store.World.{
  Db, run, invalid_transition, invalid_action, approver_not_member, not_found, last_approval_rule,
}
use expense.Store.Hoare.{Triple, bind, weaken, run_rule, map_error_rule, raise_if_rule, pure_rule}
use expense.Store.Keeps.{
  Keeps, Keeps-bind, Keeps-raise_if, Keeps-pure, Keeps-ask, Keeps-run, Keeps-map_error,
  Keeps-exec_tx,
}
use expense.Store.Projects.{get_project}
use expense.Store.Rules.{
  NewRule, create_approval_rule, get_approval_rule, update_approval_rule_step,
  soft_delete_approval_rule, count_default_org_rules, list_rules_by_approver,
  reassign_approval_rules,
}
use expense.Store.Rows.{Topic, Payload}
use expense.Store.World.{Env, World}
use expense.Store.Outbox.{emit}
use expense.Base.{Text}
use expense.Authz.{Actor, is_member_active}
use expense.Approval.Submit.{or_not_found}
use expense.Approval.Valid.Access.{check_admin-Keeps, check_org_write-Keeps, available-Keeps}
use expense.Approval.Rules.{
  CreateRuleInput, to_rule, out_of_range, or_already_exists, or_no_rule, check_project,
  check_create_rule, new_rule, create_rule_body, create_rule, update_rule_body, update_rule,
  check_default_left, check_not_last, check_delete_rule, delete_rule_body, delete_rule,
  reassign_body, reassign_rules, of_organization,
}

-- The statements of the rules, the announcements, and a deletion with its checks keep `P`.
pub record RulesKept (P : Db → Type 0) : Type 0 where
  pub created : (p : NewRule) → Triple P (run (create_approval_rule p)) (λ _ d. P d)
  pub updated :
      (id org : ℕ) (step : ℤ) → Triple P (run (update_approval_rule_step id org step)) (λ _ d. P d)
  pub deleted : (actor : Actor) (id : ℕ) → Keeps P (delete_rule actor id)
  pub reassigned :
      (org from to : ℕ) → Triple P (run (reassign_approval_rules org from to)) (λ _ d. P d)
  pub emitted :
      (kind : Text) (aggregate : ℕ) (topic : Topic) (payload : Payload)
      → Triple P (emit kind aggregate topic payload) (λ _ d. P d)

-- A change of the rules.
pub data RuleRequest : Type 0 where
  one_create : Actor → CreateRuleInput → RuleRequest
  one_update : Actor → (id : ℕ) (step : ℤ) → RuleRequest
  one_delete : Actor → (id : ℕ) → RuleRequest
  one_reassign : (org_id from_id to_id actor_id : ℕ) → RuleRequest

unfoldable pub after_rules : RuleRequest → Env → World → Db
unfolding create_rule update_rule delete_rule reassign_rules
after_rules (one_create actor input) env w = (create_rule actor input env w).1.db
after_rules (one_update actor id step) env w = (update_rule actor id step env w).1.db
after_rules (one_delete actor id) env w = (delete_rule actor id env w).1.db
after_rules (one_reassign org from to actor) env w = (reassign_rules org from to actor env w).1.db

to_rule-Keeps : {P : Db → Type 0} (org : ℕ) (r : ApprovalRule) → Keeps P (to_rule org r)
unfolding to_rule
to_rule-Keeps org r = Keeps-bind (Keeps-ask _) (λ users. Keeps-pure _)

member-Keeps : {P : Db → Type 0} (actor : Actor) (user : ℕ) → Keeps P (is_member_active actor user)
unfolding is_member_active
member-Keeps actor user = Keeps-bind (Keeps-ask _) (λ answer. available-Keeps answer)

check_project-Keeps :
    {P : Db → Type 0} (org : ℕ) (project : Option ℕ) → Keeps P (check_project org project)
unfolding check_project get_project
check_project-Keeps org none = Keeps-pure tt
check_project-Keeps org (some project) =
    Keeps-bind
      (Keeps-map_error or_not_found (run (get_project project org))
        (Keeps-run (get_project project org) (λ now d p. p)))
      (λ _. Keeps-pure tt)

create_rule-Keeps :
    {P : Db → Type 0}
    → RulesKept P
    → (actor : Actor) (input : CreateRuleInput) → Keeps P (create_rule actor input)
unfolding create_rule check_create_rule create_rule_body
create_rule-Keeps k actor input =
    Keeps-bind
      (Keeps-bind (check_admin-Keeps actor) (λ _. Keeps-bind (check_org_write-Keeps actor) (λ _.
        Keeps-bind (Keeps-raise_if (out_of_range input.step) invalid_transition) (λ _.
          Keeps-bind (member-Keeps actor input.approver_id) (λ active.
            Keeps-bind (Keeps-raise_if (not active) approver_not_member)
              (λ _. check_project-Keeps actor.org_id input.project_id))))))
      (λ _.
        Keeps-bind
          (Keeps-exec_tx (
            bind
              (map_error_rule or_already_exists (run (create_approval_rule (new_rule actor input)))
                (k.created (new_rule actor input)))
              (λ r. bind (k.emitted _ _ _ _) (λ _. weaken (pure_rule r) (λ _ d h. h.0)))))
          (λ created. to_rule-Keeps actor.org_id created))

update_rule-Keeps :
    {P : Db → Type 0}
    → RulesKept P
    → (actor : Actor) (id : ℕ) (step : ℤ) → Keeps P (update_rule actor id step)
unfolding update_rule update_rule_body
update_rule-Keeps k actor id step = Keeps-bind (check_admin-Keeps actor) (λ _.
    Keeps-bind (Keeps-raise_if (out_of_range step) invalid_transition) (λ _.
      Keeps-bind
        (Keeps-exec_tx (
          bind
            (map_error_rule or_no_rule (run (update_approval_rule_step id actor.org_id step))
              (k.updated id actor.org_id step))
            (λ r. bind (k.emitted _ _ _ _) (λ _. weaken (pure_rule r) (λ _ d h. h.0)))))
        (λ updated. to_rule-Keeps actor.org_id updated)))

pub check_not_last-Keeps :
    {P : Db → Type 0} (org : ℕ) (rule : ApprovalRule) → Keeps P (check_not_last org rule)
unfolding check_not_last check_default_left count_default_org_rules
check_not_last-Keeps org rule = elim (Bool-cases (is_none rule.project_id)) [
  | inl e ↦ rw e (
      Keeps-bind (Keeps-run (count_default_org_rules org) (λ now d p. p))
        (λ count. Keeps-raise_if (leb count 1) last_approval_rule))
  | inr e ↦ rw e (Keeps-pure tt)
]

-- A deletion by its own statements.
pub delete_rule-Keeps :
    {P : Db → Type 0}
    → ((id org : ℕ) → Triple P (run (soft_delete_approval_rule id org)) (λ _ d. P d))
    → ((kind : Text) (aggregate : ℕ) (topic : Topic) (payload : Payload)
        → Triple P (emit kind aggregate topic payload) (λ _ d. P d))
    → (actor : Actor) (id : ℕ) → Keeps P (delete_rule actor id)
unfolding delete_rule check_delete_rule delete_rule_body get_approval_rule
delete_rule-Keeps deleted emitted actor id =
    Keeps-bind
      (Keeps-bind (check_admin-Keeps actor) (λ _.
        Keeps-bind
          (Keeps-map_error or_not_found (run (get_approval_rule id actor.org_id))
            (Keeps-run (get_approval_rule id actor.org_id) (λ now d p. p)))
          (λ rule. check_not_last-Keeps actor.org_id rule)))
      (λ _. Keeps-exec_tx (
        bind (deleted id actor.org_id) (λ rows.
          bind (weaken (raise_if_rule (rows == 0) not_found) (λ _ d h. h.0))
            (λ _. emitted _ _ _ _))))

reassign_rules-Keeps :
    {P : Db → Type 0}
    → RulesKept P
    → (org from to actor : ℕ) → Keeps P (reassign_rules org from to actor)
unfolding reassign_rules reassign_body list_rules_by_approver
reassign_rules-Keeps {P} k org from to actor =
    Keeps-bind (Keeps-raise_if (from == to) invalid_action) (λ _.
      Keeps-bind (member-Keeps (of_organization org) to) (λ active.
        Keeps-bind (Keeps-raise_if (not active) approver_not_member) (λ _.
          Keeps-map_error or_already_exists _ (
            Keeps-exec_tx (
              bind (run_rule {Q = λ _ d. P d} (list_rules_by_approver org from) (λ now d h. h))
                (λ rules.
                  bind (weaken (raise_if_rule (length rules == 0) not_found) (λ _ d h. h.0)) (λ _.
                    bind (k.reassigned org from to) (λ rows.
                      bind (weaken (raise_if_rule (rows == 0) not_found) (λ _ d h. h.0)) (λ _.
                        bind (k.emitted _ _ _ _)
                          (λ _. weaken (pure_rule rows) (λ _ d h. h.0)))))))))))

-- A request on rules keeps what its statements keep, whether it succeeds or fails.
pub after_rules-Keeps :
    {P : Db → Type 0}
    → RulesKept P
    → (request : RuleRequest) (env : Env) (w : World) → P w.db
    → P (after_rules request env w)
unfolding after_rules
after_rules-Keeps k (one_create actor input) env w h =
    (create_rule-Keeps k actor input).holds env w h
after_rules-Keeps k (one_update actor id step) env w h =
    (update_rule-Keeps k actor id step).holds env w h
after_rules-Keeps k (one_delete actor id) env w h = (k.deleted actor id).holds env w h
after_rules-Keeps k (one_reassign org from to actor) env w h =
    (reassign_rules-Keeps k org from to actor).holds env w h
