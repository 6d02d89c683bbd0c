-- ===== src/Approval/Valid/Rules.antt =====
-- Changes of the rules keep the chains valid: a chain that is open has rows of its own.
use expense.Base.{
  ℕ, suc, ◌≤◌, ◌≡◌, inl, inr, arith, true, some, List, [], ◌∷◌, ◌++◌, ℤ, find, any, All, All-map,
  All-snoc, All-update, Bool-cases, Option-cases, update,
}
use expense.Store.Rows.{ApprovalRule}
use expense.Store.World.{Db, run}
use expense.Store.Hoare.{Triple, run_rule}
use expense.Store.Rules.{
  NewRule, rule_row, has_key, step_in_range, is_rule, is_rule_of, has_duplicate,
  create_approval_rule, update_approval_rule_step, soft_delete_approval_rule,
  reassign_approval_rules,
}
use expense.Approval.Chain.{IsValid}
use expense.Approval.Valid.Notices.{emit_rule}
use expense.Approval.RuleChanges.{RulesKept, delete_rule-Keeps}

abbrev InRange : List ApprovalRule → Type 0
InRange rules = All (λ r. step_in_range r.step ≡ true) rules

rules_changed :
    (d : Db) (rules : List ApprovalRule) (next : ℕ)
    → IsValid d
    → InRange rules
    → d.next_id ≤ next
    → IsValid (record d { rules = rules; next_id = next })
rules_changed d rules next c h later = record {
  transaction_ids = c.transaction_ids;
  approval_ids = c.approval_ids;
  steps = c.steps;
  rule_steps = h;
  approval_fresh = All-map d.approvals (λ a k. omega arith) c.approval_fresh;
  decision_fresh = All-map d.decisions (λ a k. omega arith) c.decision_fresh;
  rows = c.rows;
  once = c.once;
  in_order = c.in_order;
  made = c.made;
  can_move = c.can_move;
}

create_rule_rule : (p : NewRule) → Triple IsValid (run (create_approval_rule p)) (λ _ d. IsValid d)
unfolding create_approval_rule
create_rule_rule p = run_rule (create_approval_rule p) (λ now d h.
    elim (Bool-cases (step_in_range p.step)) [
      | inr e ↦ rw (e, create_approval_rule) tt
      | inl e ↦
          elim (Bool-cases (any (has_key p.organization_id p.project_id p.approver_id) d.rules)) [
            | inl f ↦ rw (e, f, create_approval_rule) tt
            | inr f ↦
                rw (e, f, create_approval_rule)
                  (rules_changed d (d.rules ++ rule_row now d.next_id p ∷ []) (suc d.next_id) h
                    (All-snoc d.rules (rule_row now d.next_id p) h.rule_steps e) (omega arith))
          ]
    ])

update_step_rule :
    (id org : ℕ) (step : ℤ)
    → Triple IsValid (run (update_approval_rule_step id org step)) (λ _ d. IsValid d)
unfolding update_approval_rule_step
update_step_rule id org step = run_rule (update_approval_rule_step id org step) (λ now d h.
    elim (Option-cases (find (is_rule id org) d.rules)) [
      | inl e ↦ rw (e, update_approval_rule_step) tt
      | inr (r, e) ↦ elim (Bool-cases (step_in_range step)) [
        | inr f ↦ rw (e, f, update_approval_rule_step) tt
        | inl f ↦
            rw (e, f, update_approval_rule_step)
              (rules_changed d
                (update (is_rule id org) (λ x. record x { step = step; updated_at = now }) d.rules)
                d.next_id h
                (All-update (is_rule id org) (λ x. record x { step = step; updated_at = now })
                  d.rules (λ x _ _. f) (λ x _ k. k) h.rule_steps)
                (omega arith))
      ]
    ])

soft_delete_rule :
    (id org : ℕ) → Triple IsValid (run (soft_delete_approval_rule id org)) (λ _ d. IsValid d)
unfolding soft_delete_approval_rule
soft_delete_rule id org = run_rule (soft_delete_approval_rule id org) (λ now d h.
    rules_changed d
      (update (is_rule id org) (λ r. record r { deleted_at = some now; updated_at = now }) d.rules)
      d.next_id h
      (All-update (is_rule id org) (λ r. record r { deleted_at = some now; updated_at = now })
        d.rules (λ x _ k. k) (λ x _ k. k) h.rule_steps)
      (omega arith))

reassign_rule :
    (org from to : ℕ)
    → Triple IsValid (run (reassign_approval_rules org from to)) (λ _ d. IsValid d)
unfolding reassign_approval_rules
reassign_rule org from to = run_rule (reassign_approval_rules org from to) (λ now d h.
    let rules : List ApprovalRule =
      update (is_rule_of org from) (λ r. record r { approver_id = to; updated_at = now }) d.rules in
    elim (Bool-cases (has_duplicate rules)) [
      | inl e ↦ rw (e, reassign_approval_rules) tt
      | inr e ↦
          rw (e, reassign_approval_rules)
            (rules_changed d rules d.next_id h
              (All-update (is_rule_of org from)
                (λ r. record r { approver_id = to; updated_at = now }) d.rules (λ x _ k. k)
                (λ x _ k. k) h.rule_steps)
              (omega arith))
    ])

pub IsValid-RulesKept : RulesKept IsValid
IsValid-RulesKept = record {
  created = create_rule_rule;
  updated = update_step_rule;
  deleted = delete_rule-Keeps soft_delete_rule emit_rule;
  reassigned = reassign_rule;
  emitted = emit_rule;
}
