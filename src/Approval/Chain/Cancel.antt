-- ===== src/Approval/Chain/Cancel.antt =====
-- After a rejection: what is still undecided in the transaction's chain is cancelled.
use expense.Base.{
  ℕ, ◌≡◌, refl, sym, ap, ◌∙◌, inl, inr, ◌⊎◌, arith, subst, Bool, true, Option, none, some, List,
  All, find, update, ◌==◌, ==_iff, if◌then◌else◌, Bool-cases, All-map, All-pair, All-update,
  find-update, any-update,
}
use expense.Store.Rows.{Status, Transaction, Approval, ApprovalDecision}
use expense.Store.World.{Db}
use expense.Store.Transactions.{has_id}
use expense.Store.Approvals.{of_transaction, is_cancellable}
use expense.Approval.Chain.{
  Chains, IsValid, status_of, RowOk, Fits, RejectedRow, InOrder, MadeByApprover, is_open,
}

module _ (tx now : ℕ) where
  abbrev pub cancel : Approval → Approval
  cancel a = record a { cancelled_at = some now }

  abbrev pub cancelled : Db → Db
  cancelled d = record d { approvals = update (is_cancellable tx d.decisions) cancel d.approvals }

  rejected_row :
      (ts : List Transaction) (ds : List ApprovalDecision)
      → status_of tx ts ≡ some Status.rejected
      → (a b : Approval) → b.transaction_id ≡ a.transaction_id
      → of_transaction tx a ≡ true
      → RejectedRow ds b
      → RowOk ts ds b
  rejected_row ts ds status a b same own h =
      subst (λ r. Fits r ds b)
        (sym (ap (λ i. status_of i ts) (same ∙ (==_iff a.transaction_id tx).0 own) ∙ status)) h

  module _ (d : Db) (c : Chains none (some tx) d)
      (status : status_of tx d.transactions ≡ some Status.rejected) where
    abbrev hit : Approval → Bool
    hit = is_cancellable tx d.decisions

    rows_cancelled :
        All
          (λ a.
            ◌≡◌ {A = Option ℕ} none (some a.transaction_id) ⊎ RowOk d.transactions d.decisions a)
          (update hit cancel d.approvals)
    rows_cancelled =
        All-update hit cancel d.approvals
          (λ a e h. inr (
            rejected_row d.transactions d.decisions status a (cancel a) refl (ground arith)
              (inr refl)))
          (λ a e h. elim (Bool-cases (of_transaction tx a)) [
            | inl own ↦
                inr (rejected_row d.transactions d.decisions status a a refl own (ground arith))
            | inr away ↦ elim h [ inl x ↦ absurd (ground arith) | inr row ↦ inr row ]
          ])
          c.rows

    InOrder-cancelled :
        All
          (λ a. All (InOrder d.decisions a) (update hit cancel d.approvals))
          (update hit cancel d.approvals)
    InOrder-cancelled =
        All-update hit cancel d.approvals
          (λ a e h. All-update hit cancel d.approvals (λ b f k. k) (λ b f k. k) h)
          (λ a e h. All-update hit cancel d.approvals (λ b f k. k) (λ b f k. k) h) c.in_order

    -- The search by id finds the same approver.
    made_cancelled : All (MadeByApprover (update hit cancel d.approvals)) d.decisions
    made_cancelled =
        All-map d.decisions
          (λ x h. (
            (if hit h.0 then cancel h.0 else h.0),
            find-update (λ b. b.id == x.approval_id) hit cancel d.approvals (λ b. refl)
                ∙ ground (arith, h.1),
            ground (arith, h.2),
          ))
          c.made

    elsewhere :
        (t : Transaction)
        → find (has_id t.id) d.transactions ≡ some t
        → t.status ≡ Status.pending_approval
        → (b : Approval) → hit b ≡ true
        → is_open t.id d.decisions (cancel b) ≡ is_open t.id d.decisions b
    elsewhere t own pending b e = elim (Bool-cases (t.id == tx)) [
      | inl same ↦
          let closed : status_of t.id d.transactions ≡ some Status.rejected =
            ap (λ i. status_of i d.transactions) ((==_iff t.id tx).0 same) ∙ status in
          absurd (ground arith)
      | inr away ↦ ground arith
    ]

    pub cancelled-IsValid : IsValid (cancelled d)
    cancelled-IsValid = record {
      transaction_ids = c.transaction_ids;
      approval_ids =
          All-update hit cancel d.approvals
            (λ a e own.
              find-update (λ b. b.id == a.id) hit cancel d.approvals (λ b. refl) ∙ ground arith)
            (λ a e own.
              find-update (λ b. b.id == a.id) hit cancel d.approvals (λ b. refl) ∙ ground arith)
            c.approval_ids;
      steps = All-update hit cancel d.approvals (λ a e h. h) (λ a e h. h) c.steps;
      rule_steps = c.rule_steps;
      approval_fresh = All-update hit cancel d.approvals (λ a e h. h) (λ a e h. h) c.approval_fresh;
      decision_fresh = c.decision_fresh;
      rows = rows_cancelled;
      once = All-update hit cancel d.approvals (λ a e h. h) (λ a e h. h) c.once;
      in_order = InOrder-cancelled;
      made = made_cancelled;
      can_move =
          All-map d.transactions
            (λ t h pending. elim (h.0 pending) [
              | inl e ↦ inl e
              | inr live ↦ inr (
                  any-update (is_open t.id d.decisions) hit cancel d.approvals
                    (elsewhere t h.1 pending)
                  ∙ live)
            ])
            (All-pair d.transactions c.can_move c.transaction_ids);
    }
