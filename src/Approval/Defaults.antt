-- ===== src/Approval/Defaults.antt =====
-- An organization that has a default rule keeps one.
use expense.Base.{
  ℕ, ◌≡◌, refl, inl, inr, arith, Bool, none, some, [], ◌∷◌, ℤ, ◌==◌, find, any, count, update,
  is_none, Text, All-every, All-map, All-snoc, All-update, Pairwise-snoc, Pairwise-update,
  Bool-cases, Option-cases, leb, any-append, any-update, ◌∙◌,
}
use expense.Store.Rows.{ApprovalRule, Topic, Payload}
use expense.Store.World.{Db, Env, World, run, not_found, last_approval_rule}
use expense.Store.Hoare.{
  Triple, bind, weaken, run_rule, map_error_rule, read_one_rule, read_rule, raise_if_rule,
  pure_rule,
}
use expense.Store.Keeps.{Keeps, Keeps-bind, Keeps-run, Keeps-map_error, Keeps-raise_if}
use expense.Store.Frames.{of_keeps}
use expense.Store.Leads.{Leads-exec_tx, Keeps-then}
use expense.Store.Rules.{
  NewRule, rule_row, has_key, in_scope, step_in_range, is_rule, is_rule_of, has_duplicate,
  create_approval_rule, get_approval_rule, update_approval_rule_step, soft_delete_approval_rule,
  count_default_org_rules, reassign_approval_rules,
}
use expense.Store.Outbox.{emit, create_outbox_event}
use expense.Authz.{Actor}
use expense.Approval.Submit.{or_not_found}
use expense.Approval.Valid.Access.{check_admin-Keeps}
use expense.Approval.Rules.{
  check_default_left, check_not_last, check_delete_rule, delete_rule_body, delete_rule,
}
use expense.Approval.RuleChanges.{
  RulesKept, RuleRequest, after_rules, after_rules-Keeps, check_not_last-Keeps,
}
use expense.Approval.LastRule.{HasDefault, MayGo, soft_deleted}

module _ (org : ℕ) where
  emitted :
      (kind : Text) (aggregate : ℕ) (topic : Topic) (payload : Payload)
      → Triple (HasDefault org) (emit kind aggregate topic payload) (λ _ d. HasDefault org d)
  unfolding emit create_outbox_event
  emitted kind aggregate topic payload =
      run_rule (create_outbox_event kind aggregate topic payload) (λ now d h. record {
        ids = h.ids;
        fresh = All-map d.rules (λ r k. omega (arith, k)) h.fresh;
        left = h.left;
      })

  created :
      (p : NewRule)
      → Triple (HasDefault org) (run (create_approval_rule p)) (λ _ d. HasDefault org d)
  unfolding create_approval_rule
  created p = run_rule (create_approval_rule p) (λ now d h.
      elim (Bool-cases (step_in_range p.step)) [
        | inr e ↦ rw (e, create_approval_rule) tt
        | inl e ↦
            elim (Bool-cases (any (has_key p.organization_id p.project_id p.approver_id) d.rules)) [
              | inl f ↦ rw (e, f, create_approval_rule) tt
              | inr f ↦
                  rw (e, f, create_approval_rule)
                    (record {
                      ids =
                          Pairwise-snoc d.rules (rule_row now d.next_id p) h.ids
                            (All-map d.rules (λ r k. ground (arith, k)) h.fresh);
                      fresh =
                          All-snoc d.rules (rule_row now d.next_id p)
                            (All-map d.rules (λ r k. omega (arith, k)) h.fresh) (omega arith);
                      left = ground (
                        arith,
                        h.left,
                        any-append (in_scope org none) d.rules (rule_row now d.next_id p ∷ []),
                      );
                    })
            ]
      ])

  -- A change that keeps ids, scopes and deletions.
  changed :
      (p : ApprovalRule → Bool) (f : ApprovalRule → ApprovalRule) (d : Db)
      → ((r : ApprovalRule) → (f r).id ≡ r.id)
      → ((r : ApprovalRule) → in_scope org none (f r) ≡ in_scope org none r)
      → HasDefault org d
      → HasDefault org (record d { rules = update p f d.rules })
  changed p f d same scope h = record {
    ids =
        Pairwise-update {P = λ _. Unit {0}} p f d.rules
          (λ a b _ _ k. ground (arith, k, same a, same b)) (All-every d.rules (λ _. tt)) h.ids;
    fresh = All-update p f d.rules (λ x _ k. omega (arith, k, same x)) (λ x _ k. k) h.fresh;
    left = any-update (in_scope org none) p f d.rules (λ x _. scope x) ∙ h.left;
  }

  updated :
      (id other : ℕ) (step : ℤ)
      → Triple
          (HasDefault org)
          (run (update_approval_rule_step id other step))
          (λ _ d. HasDefault org d)
  unfolding update_approval_rule_step
  updated id other step = run_rule (update_approval_rule_step id other step) (λ now d h.
      elim (Option-cases (find (is_rule id other) d.rules)) [
        | inl e ↦ rw (e, update_approval_rule_step) tt
        | inr (r, e) ↦ elim (Bool-cases (step_in_range step)) [
          | inr f ↦ rw (e, f, update_approval_rule_step) tt
          | inl f ↦
              rw (e, f, update_approval_rule_step)
                (changed (is_rule id other) (λ x. record x { step = step; updated_at = now }) d
                  (λ x. refl) (λ x. refl) h)
        ]
      ])

  reassigned :
      (other from to : ℕ)
      → Triple
          (HasDefault org)
          (run (reassign_approval_rules other from to))
          (λ _ d. HasDefault org d)
  unfolding reassign_approval_rules
  reassigned other from to = run_rule (reassign_approval_rules other from to) (λ now d h.
      let change = λ (x : ApprovalRule). record x { approver_id = to; updated_at = now } in
      elim (Bool-cases (has_duplicate (update (is_rule_of other from) change d.rules))) [
        | inl e ↦ rw (e, reassign_approval_rules) tt
        | inr e ↦
            rw (e, reassign_approval_rules)
              (changed (is_rule_of other from) change d (λ x. refl) (λ x. refl) h)
      ])

  -- The checks of a deletion find that the rule can go.
  check_not_last-MayGo :
      (id other : ℕ) (r : ApprovalRule)
      → Triple
          (λ d. HasDefault org d × (find (is_rule id other) d.rules ≡ some r))
          (check_not_last other r)
          (λ _ d. HasDefault org d × MayGo id other d)
  unfolding check_not_last check_default_left count_default_org_rules
  check_not_last-MayGo id other r = elim (Bool-cases (is_none r.project_id)) [
    | inl e ↦ rw e (
        bind
          (read_rule (count_default_org_rules other) (λ d. count (in_scope other none) d.rules)
            (λ now d. refl))
          (λ n.
            weaken (raise_if_rule (leb n 1) last_approval_rule)
              (λ _ d h. (h.0.0.0, (r, h.0.0.1, inr (ground (arith, h.0.1, h.1)))))))
    | inr e ↦ rw e (weaken (pure_rule tt) (λ _ d h. (h.0.0, (r, h.0.1, inl e))))
  ]

  check-MayGo :
      (actor : Actor) (id : ℕ)
      → Triple
          (HasDefault org)
          (check_delete_rule actor id)
          (λ _ d. HasDefault org d × MayGo id actor.org_id d)
  unfolding check_delete_rule get_approval_rule
  check-MayGo actor id = bind (of_keeps (check_admin-Keeps actor)) (λ _.
      bind
        (map_error_rule or_not_found _ (
          read_one_rule (get_approval_rule id actor.org_id)
            (λ d. find (is_rule id actor.org_id) d.rules) (λ now d. refl)))
        (λ r. check_not_last-MayGo id actor.org_id r))

  check-Keeps : (actor : Actor) (id : ℕ) → Keeps (HasDefault org) (check_delete_rule actor id)
  unfolding check_delete_rule get_approval_rule
  check-Keeps actor id = Keeps-bind (check_admin-Keeps actor) (λ _.
      Keeps-bind
        (Keeps-map_error or_not_found _
          (Keeps-run (get_approval_rule id actor.org_id) (λ now d h. h)))
        (λ r. check_not_last-Keeps actor.org_id r))

  deleted : (actor : Actor) (id : ℕ) → Keeps (HasDefault org) (delete_rule actor id)
  unfolding delete_rule delete_rule_body soft_delete_approval_rule
  deleted actor id = Keeps-then (check-MayGo actor id) (check-Keeps actor id) (λ _.
      Leads-exec_tx (λ d h. h.0)
        (bind
          (run_rule {Q = λ _ d. HasDefault org d} (soft_delete_approval_rule id actor.org_id)
            (λ now d h. soft_deleted id org actor.org_id now d h.0 h.1))
          (λ rows. bind (of_keeps (Keeps-raise_if (rows == 0) not_found)) (λ _. emitted _ _ _ _))))

  HasDefault-RulesKept : RulesKept (HasDefault org)
  HasDefault-RulesKept = record {
    created = created;
    updated = updated;
    deleted = deleted;
    reassigned = reassigned;
    emitted = emitted;
  }

-- Where an organization has a rule for all its projects, and the rules' ids are different and below
-- the next one, this is still so after a request on rules of any organization, whether it succeeds
-- or fails: a creation, a change of step, a deletion with its checks, or a reassignment.
pub after_rules-HasDefault :
    (org : ℕ) (request : RuleRequest) (env : Env) (w : World)
    → HasDefault org w.db
    → HasDefault org (after_rules request env w)
after_rules-HasDefault org request env w h =
    after_rules-Keeps (HasDefault-RulesKept org) request env w h
