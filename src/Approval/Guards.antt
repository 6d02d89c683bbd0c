-- ===== src/Approval/Guards.antt =====
-- What a request that succeeds found in the database, and what one that fails leaves there.
use expense.Base.{
  ℕ, ◌≤◌, ◌≡◌, refl, inl, inr, arith, subst, pos, ◌<ℤ◌, leb_ℤ, ltb, true, false, not, ◌&&◌, ◌||◌,
  none, some, find, count, is_some, is_none, ◌==◌, Option-cases,
}
use expense.Store.Rows.{Status, status_eq, Transaction, is_approved, is_rejected}
use expense.Store.World.{
  Db, Env, World, Error, ok, err, run, exec_tx, not_found, invalid_transition, submit_validation,
}
use expense.Store.Hoare.{
  Triple, bind, weaken, read_rule, read_one_rule, map_error_rule, raise_if_rule, tx_rule,
}
use expense.Store.Keeps.{
  exec_tx-atomic, Keeps, Keeps-bind, Keeps-raise_if, Keeps-run, Keeps-map_error, Keeps-ask,
}
use expense.Store.Frames.{and_keeps, settled, of_keeps, on_success, bind-atomic}
use expense.Store.Transactions.{has_id, lock_transaction, count_transaction_documents}
use expense.Store.Approvals.{ApprovalForDecide, get_approval_for_decide, approval_has_decision}
use expense.Authz.{Actor, is_member_active}
use expense.Approval.Submit.{
  or_not_found, open_with_rules, submit_body, submit_tx, submit_result, submit, SubmitResult,
}
use expense.Approval.Decide.{
  decide, decide_body, settle, check_decision, check_turn, is_blank, DecideInput, DecideResult,
}
use expense.Approval.Chain.{IsValid}
use expense.Approval.Valid.Access.{available-Keeps}
use expense.Approval.Valid.Submit.{check_submit-Keeps}
use expense.Approval.Valid.Turn.{Turn, Found-rule, Turn-rule}

-- What `Decide` requires of its input: a word it knows, and notes to a rejection.
pub record Acceptable (input : DecideInput) : Type 0 where
  pub known : (is_approved input.decision || is_rejected input.decision) ≡ true
  pub explained : is_rejected input.decision ≡ true → is_blank input.notes ≡ false

check_decision_rule :
    {P : Db → Type 0} (input : DecideInput)
    → Triple P (check_decision input) (λ _ d. P d × Acceptable input)
unfolding check_decision
check_decision_rule input =
    bind
      (raise_if_rule (not (is_approved input.decision) && not (is_rejected input.decision))
        invalid_transition)
      (λ _.
        weaken
          (raise_if_rule (is_rejected input.decision && is_blank input.notes) submit_validation)
          (λ _ d h.
            (h.0.0, record { known = ground (arith, h); explained = λ e. ground (arith, h) })))

found-Keeps : {P : Db → Type 0} (id : ℕ) → Keeps P (run (get_approval_for_decide id))
unfolding get_approval_for_decide
found-Keeps {P} id = Keeps-run (get_approval_for_decide id) (λ now d p. same now d p)
  where
    same : (now : ℕ) (d : Db) → P d → P (get_approval_for_decide id now d).1
    same now d p = elim (Option-cases (find (λ a. a.id == id) d.approvals)) [
      | inl e ↦ rw (e, get_approval_for_decide) p
      | inr (a, e) ↦ elim (Option-cases (find (has_id a.transaction_id) d.transactions)) [
        | inl f ↦ rw (e, f, get_approval_for_decide) p
        | inr (t, f) ↦ rw (e, f, get_approval_for_decide) p
      ]
    ]

check_turn-Keeps :
    {P : Db → Type 0} (actor : Actor) (x : ApprovalForDecide) → Keeps P (check_turn actor x)
unfolding check_turn approval_has_decision is_member_active
check_turn-Keeps actor x =
    Keeps-bind (Keeps-raise_if (not (x.transaction.organization_id == actor.org_id)) _) (λ _.
      Keeps-bind (Keeps-raise_if (not (status_eq x.transaction.status Status.pending_approval)) _)
        (λ _. Keeps-bind (Keeps-raise_if (is_none x.approval.activated_at) _) (λ _.
          Keeps-bind (Keeps-raise_if (is_some x.approval.cancelled_at) _) (λ _.
            Keeps-bind (Keeps-run (approval_has_decision x.approval.id) (λ now d p. p)) (λ has.
              Keeps-bind (Keeps-raise_if has _) (λ _.
                Keeps-bind (Keeps-raise_if (not (x.approval.approver_id == actor.user_id)) _) (λ _.
                  Keeps-bind (Keeps-bind (Keeps-ask _) (λ answer. available-Keeps answer))
                    (λ active. Keeps-raise_if (not active) _))))))))

-- The approval that a successful `Decide` found, and that it was the actor's turn.
pub record InTurn (actor : Actor) (id : ℕ) (input : DecideInput) (d : Db) : Type 0 where
  pub acceptable : Acceptable input
  pub row : ApprovalForDecide
  pub turn : Turn actor id row d

decide_body-InTurn :
    (actor : Actor) (id : ℕ) (input : DecideInput) (before : Db)
    → Acceptable input
    → Triple
        (λ d. IsValid d × (d ≡ before))
        (decide_body actor id input)
        (λ _ _. InTurn actor id input before)
unfolding decide_body
decide_body-InTurn actor id input before ok_input =
    bind
      (and_keeps (map_error_rule or_not_found (run (get_approval_for_decide id)) (Found-rule id))
        (Keeps-map_error or_not_found (run (get_approval_for_decide id)) (found-Keeps id)))
      (λ x.
        bind {f = λ _. settle actor x input}
          (and_keeps (Turn-rule actor id x) (check_turn-Keeps actor x))
          (λ _. settled _ (λ d h. record {
            acceptable = ok_input;
            row = x;
            turn = subst (Turn actor id x) h.1 h.0;
          })))

-- `Decide` succeeds only in turn: where the chains are valid and it returns a result, the word was
-- one of the two and a rejection had notes, and before the call the approval was there, active,
-- not cancelled and not decided, its approver was the actor, and its transaction was pending.
pub decide_only-InTurn :
    (actor : Actor) (id : ℕ) (input : DecideInput) (env : Env) (w : World) (result : DecideResult)
    → IsValid w.db
    → (decide actor id input env w).0 ≡ ok result
    → InTurn actor id input w.db
unfolding decide
decide_only-InTurn actor id input env w result h e =
    on_success env w result
      (bind (check_decision_rule {P = λ d. IsValid d × (d ≡ w.db)} input) (λ _. tx_rule (record {
        holds = λ env' w' p. (decide_body-InTurn actor id input w.db p.1).holds env' w' p.0;
      })))
      (h, refl) e

-- A `Decide` that returns an error has changed no table.
pub decide-atomic :
    (actor : Actor) (id : ℕ) (input : DecideInput) (env : Env) (w : World) {e : Error}
    → (decide actor id input env w).0 ≡ err e
    → (decide actor id input env w).1.db ≡ w.db
unfolding decide check_decision
decide-atomic actor id input env w h =
    bind-atomic (check_decision input) (λ _. exec_tx (decide_body actor id input)) env w
      ((check_decision-kept w.db input).holds env w refl)
      (λ _ w' e. exec_tx-atomic (decide_body actor id input) env w' e) h
  where
    check_decision-kept :
        (before : Db) (input : DecideInput) → Keeps (λ d. d ≡ before) (check_decision input)
    check_decision-kept before input =
        Keeps-bind
          (Keeps-raise_if (not (is_approved input.decision) && not (is_rejected input.decision))
            invalid_transition)
          (λ _.
            Keeps-raise_if (is_rejected input.decision && is_blank input.notes) submit_validation)

-- A transaction that can be submitted: a live draft of the actor's organization with a document,
-- and a total above zero.
pub record Submittable (actor : Actor) (tx : ℕ) (d : Db) : Type 0 where
  pub row : Transaction
  pub locked : find (has_id tx) d.transactions ≡ some row
  pub own : row.organization_id ≡ actor.org_id
  pub live : row.deleted_at ≡ none
  pub draft : row.status ≡ Status.draft
  pub total : pos 0 <ℤ row.total_amount
  pub documents :
      1
      ≤ count
          (λ x.
            (elim x.transaction_id [ none ↦ false | some t ↦ t == row.id ])
            && is_none x.deleted_at
            && x.upload_complete)
          d.documents

submit_body_guard :
    (actor : Actor) (tx : ℕ) (before : Db)
    → Triple (λ d. d ≡ before) (submit_body actor tx) (λ _ _. Submittable actor tx before)
unfolding submit_body lock_transaction count_transaction_documents
submit_body_guard actor tx before =
    bind
      (map_error_rule or_not_found (run (lock_transaction tx)) (
        read_one_rule (lock_transaction tx) (λ d. find (has_id tx) d.transactions) (λ now d. refl)))
      (λ t. bind (raise_if_rule (not (t.organization_id == actor.org_id)) not_found) (λ _.
        bind
          (raise_if_rule (is_some t.deleted_at || not (status_eq t.status Status.draft))
            invalid_transition)
          (λ _.
            bind
              (read_rule (count_transaction_documents t.id)
                (λ d.
                  count
                    (λ x.
                      (elim x.transaction_id [ none ↦ false | some s ↦ s == t.id ])
                      && is_none x.deleted_at
                      && x.upload_complete)
                    d.documents)
                (λ now d. refl))
              (λ docs.
                bind {f = λ _. open_with_rules actor tx t}
                  (raise_if_rule (ltb docs 1 || leb_ℤ t.total_amount (pos 0)) submit_validation)
                  (λ _. settled _ (λ d h. subst (Submittable actor tx) h.0.0.0.0.0 (record {
                    row = t;
                    locked = h.0.0.0.0.1;
                    own = ground (arith, h.0.0.0.1);
                    live = ground (arith, h.0.0.1);
                    draft = ground (arith, h.0.0.1);
                    total = ground (arith, h.1);
                    documents = ground (arith, h.1, h.0.1);
                  })))))))

-- `Submit` succeeds only on a draft of the actor's organization that is not deleted, has a
-- document that is uploaded and not deleted, and a total above zero.
pub submit_only_drafts :
    (actor : Actor) (tx : ℕ) (env : Env) (w : World) (result : SubmitResult)
    → (submit actor tx env w).0 ≡ ok result
    → Submittable actor tx w.db
unfolding submit submit_tx
submit_only_drafts actor tx env w result e =
    on_success env w result
      (bind (of_keeps (check_submit-Keeps {P = λ d. d ≡ w.db} actor tx)) (λ _.
        bind {f = λ _. submit_result tx} (tx_rule (submit_body_guard actor tx w.db))
          (λ _. settled (submit_result tx) (λ d h. h))))
      refl e
