-- ===== src/Approval/Valid/MoveOn.antt =====
-- `Decide` after the row of the decision: the chain ends or moves on.
use expense.Base.{
  ◌≡◌, refl, sym, ap, ◌∙◌, inl, inr, arith, subst, ap₂, ℤ, negsuc, eq_ℤ, eq_ℤ_iff, Bool, List,
  false, Option, none, some, find, Bool-cases,
}
use expense.Store.Rows.{Status, is_rejected, Approval}
use expense.Store.World.{run, pure, ◌>>◌}
use expense.Store.Hoare.{Triple, bind, weaken, strengthen, run_rule, read_rule, pure_rule}
use expense.Store.Transactions.{has_id, approve_transaction, reject_transaction}
use expense.Store.Approvals.{
  ApprovalForDecide, list_approvals_by_transaction, list_decisions_by_transaction,
  cancel_pending_approvals, activate_approval_step,
}
use expense.Approval.Decide.{
  move_on, follow, activate_next, activate_step, DecideInput, find_next_step, no_approval,
}
use expense.Approval.Chain.{Chains, IsValid, status_of}
use expense.Approval.Chain.Transition.{reject-Chains, status_closed, status_at}
use expense.Approval.Chain.Cancel.{cancelled-IsValid}
use expense.Approval.Chain.Next.{NextStep}
use expense.Approval.Chain.Activate.{chain_of, decisions_of, next_of_chain, awake-IsValid}
use expense.Approval.Chain.Finish.{waiting-IsValid, approved-IsValid}
use expense.Approval.Valid.Turn.{Decided}

-- A rejection: the status first, then the rows.
rejection_rule :
    (x : ApprovalForDecide)
    → Triple {A = Bool × Approval}
        (λ d.
          (find (has_id x.approval.transaction_id) d.transactions ≡ some x.transaction)
          × (x.transaction.status ≡ Status.pending_approval)
          × Chains (some x.approval.transaction_id) (some x.approval.transaction_id) d)
        (run (reject_transaction x.approval.transaction_id)
          >> (run (cancel_pending_approvals x.approval.transaction_id)
              >> pure (false, no_approval)))
        (λ _ d. IsValid d)
unfolding reject_transaction cancel_pending_approvals
rejection_rule x =
    let tx = x.approval.transaction_id in
    bind
      (run_rule
        {Q = λ _ d. Chains none (some tx) d × (status_of tx d.transactions ≡ some Status.rejected)}
        (reject_transaction tx)
        (λ now d h. (
          reject-Chains tx now Status.rejected d h.2 (λ e. cc),
          status_closed tx now Status.rejected d h.0 h.1,
        )))
      (λ _.
        bind
          (run_rule {Q = λ _ d. IsValid d} (cancel_pending_approvals tx)
            (λ now d h. cancelled-IsValid tx now d h.0 h.1))
          (λ _. weaken (pure_rule _) (λ _ d h. h.0)))

-- An approval: the chain moves on.
activate_step_rule :
    (x : ApprovalForDecide) (approvals : List Approval) (s : ℤ)
    → Triple
        (λ d.
          (find (has_id x.approval.transaction_id) d.transactions ≡ some x.transaction)
          × (x.transaction.status ≡ Status.pending_approval)
          × Chains (some x.approval.transaction_id) none d
          × NextStep
              (decisions_of x.approval.transaction_id d)
              (negsuc 0)
              s
              (chain_of x.approval.transaction_id d))
        (activate_step x.approval.transaction_id approvals s)
        (λ _ d. IsValid d)
unfolding activate_step approve_transaction activate_approval_step
activate_step_rule x approvals s =
    let tx = x.approval.transaction_id in
    elim (Bool-cases (eq_ℤ s (negsuc 0))) [
      | inl e ↦ rw e (
          bind
            (run_rule {Q = λ _ d. IsValid d} (approve_transaction tx) (λ now d h.
              approved-IsValid tx d h.2 now h.0 h.1 (
                subst (λ r. NextStep (decisions_of tx d) (negsuc 0) r (chain_of tx d))
                  ((eq_ℤ_iff s (negsuc 0)).0 e) h.3)))
            (λ _. weaken (pure_rule _) (λ _ d h. h.0)))
      | inr e ↦ rw e (
          bind
            (run_rule {Q = λ _ d. IsValid d} (activate_approval_step tx s) (λ now d h.
              awake-IsValid tx now s d h.2 (status_at tx d.transactions h.0 ∙ ap some h.1) h.3 e))
            (λ _. weaken (pure_rule _) (λ _ d h. h.0)))
    ]

follow_rule :
    (x : ApprovalForDecide) (approvals : List Approval) (next : Option ℤ)
    → Triple
        (λ d.
          (find (has_id x.approval.transaction_id) d.transactions ≡ some x.transaction)
          × (x.transaction.status ≡ Status.pending_approval)
          × Chains (some x.approval.transaction_id) none d
          × (find_next_step
                (decisions_of x.approval.transaction_id d)
                (negsuc 0)
                (chain_of x.approval.transaction_id d)
              ≡ next))
        (follow x.approval.transaction_id approvals next)
        (λ _ d. IsValid d)
unfolding follow
follow_rule x approvals none =
    weaken (pure_rule (false, no_approval))
      (λ _ d h. waiting-IsValid x.approval.transaction_id d h.0.2 h.0.3)
follow_rule x approvals (some s) =
    strengthen (λ d h. (h.0, h.1, h.2, next_of_chain x.approval.transaction_id d s h.2.steps h.3))
      (activate_step_rule x approvals s)

-- `activateNext`, from a chain whose last decision was an approval.
activate_next_rule :
    (x : ApprovalForDecide)
    → Triple
        (λ d.
          (find (has_id x.approval.transaction_id) d.transactions ≡ some x.transaction)
          × (x.transaction.status ≡ Status.pending_approval)
          × Chains (some x.approval.transaction_id) none d)
        (activate_next x.approval.transaction_id)
        (λ _ d. IsValid d)
unfolding activate_next list_approvals_by_transaction list_decisions_by_transaction
activate_next_rule x =
    let tx = x.approval.transaction_id in
    bind (read_rule (list_approvals_by_transaction tx) (chain_of tx) (λ now d. refl)) (λ approvals.
      bind (read_rule (list_decisions_by_transaction tx) (decisions_of tx) (λ now d. refl))
        (λ decisions.
          strengthen
            (λ d h. (
              h.0.0.0,
              h.0.0.1,
              h.0.0.2,
              sym (ap₂ (λ l r. find_next_step r (negsuc 0) l) h.0.1 h.1),
            ))
            (follow_rule x approvals (find_next_step decisions (negsuc 0) approvals))))

pub move_on_rule :
    (x : ApprovalForDecide) (input : DecideInput)
    → Triple (Decided x input) (move_on input.decision x.approval.transaction_id) (λ _ d. IsValid d)
unfolding move_on
move_on_rule x input = elim (Bool-cases (is_rejected input.decision)) [
  | inl e ↦ rw e (
      strengthen
        (λ d h. elim h.outcome [
          | inl o ↦ absurd (ground arith)
          | inr o ↦ (h.its_transaction, h.pending, o.1)
        ])
        (rejection_rule x))
  | inr e ↦ rw e (
      strengthen
        (λ d h. elim h.outcome [
          | inl o ↦ (h.its_transaction, h.pending, o.1)
          | inr o ↦ absurd (ground arith)
        ])
        (activate_next_rule x))
]
