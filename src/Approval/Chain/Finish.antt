-- ===== src/Approval/Chain/Finish.antt =====
-- After an approval where no step goes active: a sibling still owes, or everything is decided.
use expense.Base.{
  ℕ, ◌≡◌, sym, ◌∙◌, arith, ℤ, negsuc, true, ◌&&◌, none, some, List, [], ◌∷◌, All, find, any,
  is_some, All-map, All-pair, any-All,
}
use expense.Store.Rows.{Status, Transaction, Approval, ApprovalDecision}
use expense.Store.World.{Db}
use expense.Store.Transactions.{has_id}
use expense.Store.Approvals.{of_transaction, is_decided}
use expense.Approval.Decide.{advance, is_owing, find_next_step}
use expense.Approval.Chain.{Chains, IsValid, PendingRow, is_open}
use expense.Approval.Chain.Decision.{settled}
use expense.Approval.Chain.Transition.{approve-Chains, pending_row, after}
use expense.Approval.Chain.Next.{NextStep}
use expense.Approval.Chain.Opening.{opening_done}
use expense.Approval.Chain.Activate.{
  chain_of, decisions_of, decided-decisions_of, All-chain_of, any-chain_of,
}

pub find_next_step_waits :
    (ds : List ApprovalDecision) (next : ℤ) (approvals : List Approval)
    → find_next_step ds next approvals ≡ none
    → any (is_owing ds) approvals ≡ true
unfolding find_next_step
find_next_step_waits ds next [] e = cc
find_next_step_waits ds next (a ∷ others) e =
    ground (arith, find_next_step_waits ds (advance next a) others)

module _ (tx : ℕ) (d : Db) (c : Chains (some tx) none d) where
  -- An active approval of the chain still owes its decision, so the transaction can move.
  pub waiting-IsValid :
      find_next_step (decisions_of tx d) (negsuc 0) (chain_of tx d) ≡ none → IsValid d
  waiting-IsValid e = opening_done tx d c (
      any-All (λ a. of_transaction tx a && is_owing (decisions_of tx d) a) (is_open tx d.decisions)
        d.approvals c.approval_ids (λ a own there. ground (arith, decided-decisions_of tx d a own))
        (sym (any-chain_of tx d (is_owing (decisions_of tx d)))
          ∙ find_next_step_waits (decisions_of tx d) (negsuc 0) (chain_of tx d) e))

  -- The loop found no step, and nothing owes: every approval was given.
  pub each_decided :
      {t : Transaction}
      → find (has_id tx) d.transactions ≡ some t
      → t.status ≡ Status.pending_approval
      → NextStep (decisions_of tx d) (negsuc 0) (negsuc 0) (chain_of tx d)
      → All
          (λ a.
            of_transaction tx a ≡ true
            → (is_some a.activated_at ≡ true) × (is_decided d.decisions a.id ≡ true))
          d.approvals
  each_decided locked pending n =
      All-map d.approvals
        (λ a h mine.
          let row : PendingRow d.decisions a =
            pending_row tx 0 d locked pending a mine
              (settled d.transactions d.decisions a h.1.1.1) in
          let active : is_some a.activated_at ≡ true =
            ground (arith, h.0 mine, row.not_cancelled) in
          (
            active,
            ground (arith, h.1.0 mine, row.not_cancelled, decided-decisions_of tx d a h.1.1.0 mine),
          ))
        (All-pair d.approvals (All-chain_of tx d n.least) (
          All-pair d.approvals (All-chain_of tx d n.none_owing)
            (All-pair d.approvals c.approval_ids c.rows)))

  pub approved-IsValid :
      (now : ℕ) {t : Transaction}
      → find (has_id tx) d.transactions ≡ some t
      → t.status ≡ Status.pending_approval
      → NextStep (decisions_of tx d) (negsuc 0) (negsuc 0) (chain_of tx d)
      → IsValid (after tx now Status.approved d)
  approved-IsValid now locked pending n =
      approve-Chains tx now d locked pending c (each_decided locked pending n)
