-- ===== src/Approval/Valid/Turn.antt =====
-- `Decide` up to the row of the decision: what its checks establish, and what the row changes.
use expense.Base.{
  ℕ, ◌≡◌, refl, sym, inl, inr, ◌⊎◌, arith, subst, Bool, true, false, not, Option, none, some, find,
  find-passes, ◌==◌, ==_iff, is_some, is_none, Bool-cases, Option-cases,
}
use expense.Store.Rows.{Status, status_eq, DecisionWord, is_rejected}
use expense.Store.World.{Db, run, err, Result, failure}
use expense.Store.Hoare.{
  Triple, Yields, bind, weaken, run_rule, read_rule, raise_if_rule, raise_rule, pure_rule, ask_rule,
}
use expense.Store.Transactions.{has_id}
use expense.Store.Approvals.{
  is_decided, ApprovalForDecide, NewDecision, decision_row, get_approval_for_decide,
  approval_has_decision, insert_decision, create_approval_decision,
}
use expense.Authz.{Actor, is_member_active, available}
use expense.Approval.Decide.{check_turn, DecideInput, decision_of}
use expense.Approval.Chain.{Chains, IsValid}
use expense.Approval.Chain.Decision.{decision-Chains, approval-Chains}

-- The rows that GetApprovalForDecide joins.
pub record Found (id : ℕ) (x : ApprovalForDecide) (d : Db) : Type 0 where
  pub valid : IsValid d
  pub at_id : find (λ a. a.id == id) d.approvals ≡ some x.approval
  pub its_transaction : find (has_id x.approval.transaction_id) d.transactions ≡ some x.transaction

pub Found-rule : (id : ℕ) → Triple IsValid (run (get_approval_for_decide id)) (λ x d. Found id x d)
unfolding get_approval_for_decide
Found-rule id = run_rule (get_approval_for_decide id) (λ now d valid.
    elim (Option-cases (find (λ a. a.id == id) d.approvals)) [
      | inl e ↦ rw (e, get_approval_for_decide, Yields) tt
      | inr (a, e) ↦ elim (Option-cases (find (has_id a.transaction_id) d.transactions)) [
        | inl f ↦ rw (e, f, get_approval_for_decide, Yields) tt
        | inr (t, f) ↦
            rw (e, f, get_approval_for_decide, Yields)
              (record { valid = valid; at_id = e; its_transaction = f })
      ]
    ])

-- What the checks of `Decide` establish.
pub record Turn (actor : Actor) (id : ℕ) (x : ApprovalForDecide) (d : Db) : Type 0 where
  pub found : Found id x d
  pub pending : x.transaction.status ≡ Status.pending_approval
  pub active : is_some x.approval.activated_at ≡ true
  pub stands : is_some x.approval.cancelled_at ≡ false
  pub undecided : is_decided d.decisions x.approval.id ≡ false
  pub own : x.approval.approver_id ≡ actor.user_id

pub available_rule :
    {A : Type 0} {P : Db → Type 0} (o : Option A) → Triple P (available o) (λ _ d. P d)
available_rule none = raise_rule _
available_rule (some a) = weaken (pure_rule a) (λ b d h. h.0)

pub is_member_active_rule :
    {P : Db → Type 0} (actor : Actor) (user : ℕ)
    → Triple P (is_member_active actor user) (λ _ d. P d)
unfolding is_member_active
is_member_active_rule actor user = bind (ask_rule _) (λ answer. available_rule answer)

Turn-facts :
    (actor : Actor) (id : ℕ) (x : ApprovalForDecide) (d : Db)
    → Found id x d
    → not (status_eq x.transaction.status Status.pending_approval) ≡ false
    → is_none x.approval.activated_at ≡ false
    → is_some x.approval.cancelled_at ≡ false
    → (has : Bool) → has ≡ is_decided d.decisions x.approval.id
    → has ≡ false
    → not (x.approval.approver_id == actor.user_id) ≡ false
    → Turn actor id x d
Turn-facts actor id x d found pending active stands has e undecided own = record {
  found = found;
  pending = ground arith;
  active = ground arith;
  stands = stands;
  undecided = ground arith;
  own = ground arith;
}

pub Turn-rule :
    (actor : Actor) (id : ℕ) (x : ApprovalForDecide)
    → Triple (Found id x) (check_turn actor x) (λ _ d. Turn actor id x d)
unfolding check_turn approval_has_decision
Turn-rule actor id x = bind (raise_if_rule _ _) (λ _. bind (raise_if_rule _ _) (λ _.
    bind (raise_if_rule _ _) (λ _. bind (raise_if_rule _ _) (λ _.
      bind
        (read_rule (approval_has_decision x.approval.id) (λ d. is_decided d.decisions x.approval.id)
          (λ now d. refl))
        (λ has. bind (raise_if_rule _ _) (λ _. bind (raise_if_rule _ _) (λ _.
          bind (is_member_active_rule actor actor.user_id) (λ active.
            weaken (raise_if_rule _ _) (λ _ d h.
              Turn-facts actor id x d h.0.0.0.0.0.0.0.0 h.0.0.0.0.0.0.1 h.0.0.0.0.0.1 h.0.0.0.0.1
                has h.0.0.0.1 h.0.0.1 h.0.1)))))))))

-- What holds once the decision is recorded.
pub record Decided (x : ApprovalForDecide) (input : DecideInput) (d : Db) : Type 0 where
  pub its_transaction : find (has_id x.approval.transaction_id) d.transactions ≡ some x.transaction
  pub pending : x.transaction.status ≡ Status.pending_approval
  pub outcome :
      ((is_rejected input.decision ≡ false) × Chains (some x.approval.transaction_id) none d)
      ⊎ ((is_rejected input.decision ≡ true)
          × Chains (some x.approval.transaction_id) (some x.approval.transaction_id) d)

Decided-inserted :
    (actor : Actor) (id : ℕ) (x : ApprovalForDecide) (input : DecideInput) (now : ℕ) (d : Db)
    → Turn actor id x d
    → Decided x input (insert_decision (decision_of actor x input) now d).1
unfolding insert_decision
Decided-inserted actor id x input now d t =
    let a = x.approval in
    let row = decision_row now d.next_id (decision_of actor x input) in
    let same : a.id ≡ id =
      (==_iff a.id id).0 (find-passes (λ b. b.id == id) d.approvals a t.found.at_id) in
    let there : find (λ b. b.id == a.id) d.approvals ≡ some a =
      subst (λ i. find (λ b. b.id == i) d.approvals ≡ some a) (sym same) t.found.at_id in
    record {
      its_transaction = t.found.its_transaction;
      pending = t.pending;
      outcome = elim (Bool-cases (is_rejected input.decision)) [
        | inl e ↦ inr (e, decision-Chains d a row t.found.valid refl there t.undecided t.own)
        | inr e ↦
            inl (e, approval-Chains d a row t.found.valid refl there t.undecided t.own e t.active)
      ];
    }

-- A decision of neither word is refused by the table.
decision-Yields :
    (p : NewDecision) (now : ℕ) (d : Db) (Q : Unit {0} → Db → Type 0) (word : DecisionWord)
    → Q tt (insert_decision p now d).1
    → let r : Result (Unit {0}) × Db = elim word [
      | DecisionWord.approved ↦ insert_decision p now d
      | DecisionWord.rejected ↦ insert_decision p now d
      | DecisionWord.other _ ↦ (err failure, d)
    ] in
      Yields Q r
unfolding insert_decision
decision-Yields p now d Q DecisionWord.approved h = h
decision-Yields p now d Q DecisionWord.rejected h = h
decision-Yields p now d Q (DecisionWord.other _) h = tt

pub decision_rule :
    (actor : Actor) (id : ℕ) (x : ApprovalForDecide) (input : DecideInput)
    → Triple
        (Turn actor id x)
        (run (create_approval_decision (decision_of actor x input)))
        (λ _ d. Decided x input d)
unfolding create_approval_decision
decision_rule actor id x input =
    run_rule (create_approval_decision (decision_of actor x input)) (λ now d t.
      decision-Yields (decision_of actor x input) now d (λ _ e. Decided x input e) input.decision
        (Decided-inserted actor id x input now d t))
