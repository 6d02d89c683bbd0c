-- ===== src/Approval/Valid/Submit.antt =====
-- `Submit` keeps the chains valid.
use expense.Base.{
  ℕ, ◌≡◌, refl, sym, ◌∙◌, inl, inr, arith, subst, ℤ, pos, ◌≤ℤ◌, leb_ℤ, ltb, Bool, List, [], ◌∷◌,
  true, false, not, ◌||◌, Option, none, some, All, All-map, All-pair, All-head, All-tail, find,
  find-passes, length, sort_by, filter, ◌==◌, ==_iff, is_some, if◌then◌else◌, Bool-cases,
}
use expense.Store.Rows.{Status, status_eq, Transaction, ApprovalRule}
use expense.Store.World.{
  Db, run, pure, map_error, UserInfo, not_found, invalid_transition, submit_validation,
  no_approver_resolved,
}
use expense.Store.Hoare.{
  Triple, bind, weaken, run_rule, read_rule, read_one_rule, map_error_rule, raise_if_rule,
  raise_rule, assuming, pure_rule, ask_rule,
}
use expense.Store.Transactions.{
  has_id, get_transaction, lock_transaction, count_transaction_documents, submit_transaction,
}
use expense.Store.Approvals.{list_approvals_by_transaction}
use expense.Store.Rules.{resolve_project_rules, resolve_default_rules, in_rule_order, in_scope}
use expense.Authz.{Actor, check_admin, transaction_view}
use expense.Approval.Submit.{
  or_not_found, or_default_rules, resolve_rules, or_no_users, notify_first, open_chain,
  open_with_rules, submit_body, submit_tx, submit, check_submit, first_activated,
  first_activated_approver, submit_result,
}
use expense.Approval.Valid.Access.{check_org_write-Keeps, check_admin-Keeps, can-Keeps}
use expense.Approval.Chain.{IsValid}
use expense.Approval.Chain.Opening.{opened, opened-Chains, status_opened, no_rows_of_draft}
use expense.Approval.Chain.Rules.{least_first, positive_steps}
use expense.Approval.Valid.Notices.{emit_rule, step_activated_rule}
use expense.Store.Keeps.{Keeps, Keeps-bind, Keeps-pure, Keeps-run, Keeps-map_error, Keeps-exec_tx}
use expense.Approval.Valid.Opening.{OpenIf, every_approval_rule}

-- The draft that `submitTx` has locked.
record Draft (tx : ℕ) (t : Transaction) (d : Db) : Type 0 where
  valid : IsValid d
  locked : find (has_id tx) d.transactions ≡ some t
  draft : t.status ≡ Status.draft
  live : t.deleted_at ≡ none

-- The rules in the order of their steps, which are positive.
abbrev Resolved : List ApprovalRule → Type 0
Resolved rules =
    (xs : List ApprovalRule) × (rules ≡ sort_by in_rule_order xs) × All (λ r. pos 1 ≤ℤ r.step) rules

rules_at :
    (tx : ℕ) (t : Transaction) (org : ℕ) (project : Option ℕ) (rules : List ApprovalRule) (d : Db)
    → Draft tx t d
    → rules ≡ sort_by in_rule_order (filter (in_scope org project) d.rules)
    → Draft tx t d × Resolved rules
rules_at tx t org project rules d h e = (
  h,
  (
    filter (in_scope org project) d.rules,
    e,
    subst (All (λ r. pos 1 ≤ℤ r.step)) (sym e) (positive_steps d org project h.valid.rule_steps),
  ),
)

or_default_rule :
    (actor : Actor) (tx : ℕ) (t : Transaction) (rules : List ApprovalRule)
    → Triple
        (λ d.
          Draft tx t d
          × (rules
              ≡ sort_by in_rule_order (filter (in_scope actor.org_id (some t.project_id)) d.rules)))
        (or_default_rules actor rules)
        (λ found d. Draft tx t d × Resolved found)
unfolding or_default_rules resolve_default_rules
or_default_rule actor tx t rules = elim (Bool-cases (length rules == 0)) [
  | inl e ↦ rw e (
      weaken
        (read_rule (resolve_default_rules actor.org_id)
          (λ d. sort_by in_rule_order (filter (in_scope actor.org_id none) d.rules))
          (λ now d. refl))
        (λ found d h. rules_at tx t actor.org_id none found d h.0.0 h.1))
  | inr e ↦ rw e (
      weaken (pure_rule rules)
        (λ found d h. rules_at tx t actor.org_id (some t.project_id) found d h.0.0 (h.1 ∙ h.0.1)))
]

resolve_rule :
    (actor : Actor) (tx : ℕ) (t : Transaction)
    → Triple (Draft tx t) (resolve_rules actor t) (λ rules d. Draft tx t d × Resolved rules)
unfolding resolve_rules resolve_project_rules
resolve_rule actor tx t =
    bind
      (read_rule (resolve_project_rules actor.org_id t.project_id)
        (λ d. sort_by in_rule_order (filter (in_scope actor.org_id (some t.project_id)) d.rules))
        (λ now d. refl))
      (λ rules. or_default_rule actor tx t rules)

open_rule :
    (tx : ℕ) (t : Transaction) (first : ℤ)
    → Triple (Draft tx t) (run (submit_transaction tx)) (λ _ d. OpenIf t.id first false d)
unfolding submit_transaction
open_rule tx t first = run_rule (submit_transaction tx) (λ now d h.
    let same : tx ≡ t.id =
      sym ((==_iff t.id tx).0 (find-passes (has_id tx) d.transactions t h.locked)) in
    subst (λ i. OpenIf i first false (opened tx now d)) same
      (
        record {
          chains = opened-Chains tx now d t h.valid h.locked h.draft;
          pending = status_opened tx now d t h.valid h.locked h.draft h.live;
          ahead =
              All-map d.approvals (λ b away mine. absurd (ground arith))
                (no_rows_of_draft tx now d t h.valid h.locked h.draft);
        },
        λ e. cc,
      ))

notify_first_rule :
    (t : Transaction) (users : List UserInfo) (step : ℤ) (approver : ℕ)
    → Triple IsValid (notify_first t users step approver) (λ _ d. IsValid d)
unfolding notify_first
notify_first_rule t users step approver = elim (Bool-cases (approver == 0)) [
  | inl e ↦ rw e (weaken (pure_rule tt) (λ _ d h. h.0))
  | inr e ↦ rw e (step_activated_rule _ _ _ _ _ _ _ _)
]

open_chain_rule :
    (actor : Actor) (tx : ℕ) (t : Transaction) (rules : List ApprovalRule)
    → Resolved rules
    → Triple (Draft tx t) (open_chain actor tx t rules) (λ _ d. IsValid d)
unfolding open_chain
open_chain_rule actor tx t [] resolved = raise_rule no_approver_resolved
open_chain_rule actor tx t (r ∷ rs) resolved =
    let least : All (λ x. (pos 1 ≤ℤ x.step) × (r.step ≤ℤ x.step)) rs =
      All-pair rs (All-tail resolved.2) (least_first resolved.0 resolved.1) in
    bind (open_rule tx t r.step) (λ rows.
      bind (weaken (raise_if_rule (rows == 0) invalid_transition) (λ _ d h. h.0)) (λ _.
        bind (ask_rule _) (λ answer.
          bind (every_approval_rule actor t (or_no_users answer) 0 r rs (All-head resolved.2) least)
            (λ first.
              bind (notify_first_rule t (or_no_users answer) r.step first)
                (λ _. emit_rule _ _ _ _)))))

submit_body_rule :
    (actor : Actor) (tx : ℕ) → Triple IsValid (submit_body actor tx) (λ _ d. IsValid d)
unfolding submit_body open_with_rules lock_transaction count_transaction_documents
submit_body_rule actor tx =
    bind
      (map_error_rule or_not_found (run (lock_transaction tx)) (
        read_one_rule (lock_transaction tx) (λ d. find (has_id tx) d.transactions) (λ now d. refl)))
      (λ t. bind (raise_if_rule (not (t.organization_id == actor.org_id)) not_found) (λ _.
        bind
          (weaken
            (raise_if_rule (is_some t.deleted_at || not (status_eq t.status Status.draft))
              invalid_transition)
            (λ _ d h. draft_of tx t d h.0.0.0 h.0.0.1 h.1))
          (λ _.
            bind
              (run_rule {Q = λ _ d. Draft tx t d} (count_transaction_documents t.id) (λ now d h. h))
              (λ docs.
                bind
                  (weaken
                    (raise_if_rule (ltb docs 1 || leb_ℤ t.total_amount (pos 0)) submit_validation)
                    (λ _ d h. h.0))
                  (λ _.
                    bind (resolve_rule actor tx t) (λ rules.
                      assuming (λ resolved. open_chain_rule actor tx t rules resolved)))))))
  where
    draft_of :
        (tx : ℕ) (t : Transaction) (d : Db)
        → IsValid d
        → find (has_id tx) d.transactions ≡ some t
        → (is_some t.deleted_at || not (status_eq t.status Status.draft)) ≡ false
        → Draft tx t d
    draft_of tx t d valid locked e = record {
      valid = valid;
      locked = locked;
      draft = ground arith;
      live = ground arith;
    }

pub submit_tx-Keeps : (actor : Actor) (tx : ℕ) → Keeps IsValid (submit_tx actor tx)
unfolding submit_tx
submit_tx-Keeps actor tx = Keeps-exec_tx (submit_body_rule actor tx)

own_or_admin-Keeps :
    {P : Db → Type 0} (own : Bool) (actor : Actor)
    → Keeps P (if own then pure tt else check_admin actor)
own_or_admin-Keeps true actor = Keeps-pure tt
own_or_admin-Keeps false actor = check_admin-Keeps actor

found_transaction-Keeps :
    {P : Db → Type 0} (tx org : ℕ) → Keeps P (map_error or_not_found (run (get_transaction tx org)))
unfolding get_transaction
found_transaction-Keeps tx org =
    Keeps-map_error or_not_found (run (get_transaction tx org))
      (Keeps-run (get_transaction tx org) (λ now d p. p))

pub check_submit-Keeps :
    {P : Db → Type 0} (actor : Actor) (tx : ℕ) → Keeps P (check_submit actor tx)
unfolding check_submit
check_submit-Keeps actor tx = Keeps-bind (check_org_write-Keeps actor) (λ _.
    Keeps-bind (found_transaction-Keeps tx actor.org_id) (λ t.
      Keeps-bind (can-Keeps actor t.project_id transaction_view)
        (λ _. own_or_admin-Keeps (t.created_by == actor.user_id) actor)))

first_activated-Keeps : {P : Db → Type 0} (tx : ℕ) → Keeps P (first_activated_approver tx)
unfolding first_activated_approver list_approvals_by_transaction
first_activated-Keeps tx =
    Keeps-bind (Keeps-run (list_approvals_by_transaction tx) (λ now d p. p))
      (λ approvals. Keeps-pure (first_activated approvals))

pub submit-Keeps : (actor : Actor) (tx : ℕ) → Keeps IsValid (submit actor tx)
unfolding submit submit_result
submit-Keeps actor tx = Keeps-bind (check_submit-Keeps actor tx) (λ _.
    Keeps-bind (submit_tx-Keeps actor tx) (λ _. Keeps-bind (first_activated-Keeps tx) (λ first.
      Keeps-pure (record {
        transaction_id = tx;
        status = Status.pending_approval;
        first_approver_id = first;
      }))))
