-- ===== src/Approval/Chain/Transition.antt =====
-- What a change of a transaction's status does to the chains.
use expense.Base.{
  ℕ, ◌≡◌, ◌≢◌, refl, sym, ap, ◌∙◌, inl, inr, arith, subst, Bool, true, Option, none, some, List, [],
  ◌∷◌, All, find, update, is_some, ◌==◌, ==_iff, Bool-cases, All-map, All-pair, All-update,
  find-update, find-passes,
}
use expense.Store.Rows.{Status, status_eq, Transaction, Approval}
use expense.Store.World.{Db}
use expense.Store.Transactions.{has_id, is_pending, closed}
use expense.Store.Approvals.{of_transaction, is_decided}
use expense.Approval.Chain.{Chains, status_of, RowOk, Fits, PendingRow, CanMove}
use expense.Approval.Chain.Decision.{settled}

pub pending_iff :
    (s : Status) → (status_eq s Status.pending_approval ≡ true) → s ≡ Status.pending_approval
pending_iff s h = ground arith

-- An update of the row `tx`, by a change that keeps the id.
module _ (tx : ℕ) (p : Transaction → Bool) (g : Transaction → Transaction)
    (only : (t : Transaction) → p t ≡ true → (t.id == tx) ≡ true)
    (same_id : (t : Transaction) → (g t).id ≡ t.id) where
  pub status_elsewhere :
      (id : ℕ) (ts : List Transaction) → id ≢ tx → status_of id (update p g ts) ≡ status_of id ts
  status_elsewhere id [] ne = refl
  status_elsewhere id (t ∷ ts) ne = elim (Bool-cases (p t)) [
    | inl e ↦ ground (arith, only t e, same_id t, status_elsewhere id ts ne)
    | inr e ↦ ground (arith, status_elsewhere id ts ne)
  ]

  pub status_here :
      (ts : List Transaction) (t : Transaction)
      → find (has_id tx) ts ≡ some t
      → p t ≡ true
      → status_of tx (update p g ts) ≡ some (g t).status
  status_here [] t e h = cc
  status_here (u ∷ ts) t e h = ground (arith, only u, same_id u, status_here ts t)

  pub transaction_ids_after :
      (ts : List Transaction)
      → All (λ t. find (has_id t.id) ts ≡ some t) ts
      → All (λ t. find (has_id t.id) (update p g ts) ≡ some t) (update p g ts)
  transaction_ids_after ts h =
      All-update p g ts
        (λ t e own.
          find-update (has_id (g t).id) p g ts (λ u. ground (arith, same_id u))
          ∙ ground (arith, same_id t))
        (λ t e own.
          find-update (has_id t.id) p g ts (λ u. ground (arith, same_id u)) ∙ ground arith)
        h

pub status_at :
    (id : ℕ) (ts : List Transaction) {t : Transaction}
    → find (has_id id) ts ≡ some t
    → status_of id ts ≡ some t.status
status_at id ts e = rw e

-- The statement that closes a pending transaction with the status `s`.
module _ (tx now : ℕ) (s : Status) where
  abbrev pub after : Db → Db
  after d = record d { transactions = update (is_pending tx) (closed now s) d.transactions }

  only_pending : (t : Transaction) → is_pending tx t ≡ true → (t.id == tx) ≡ true
  only_pending t h = ground arith

  row_elsewhere :
      (d : Db) (b : Approval)
      → b.transaction_id ≢ tx
      → RowOk d.transactions d.decisions b
      → RowOk (after d).transactions d.decisions b
  row_elsewhere d b ne h =
      subst (λ r. Fits r d.decisions b)
        (sym (
          status_elsewhere tx (is_pending tx) (closed now s) only_pending (λ t. refl)
            b.transaction_id d.transactions ne))
        h

  pub status_closed :
      (d : Db) {t : Transaction}
      → find (has_id tx) d.transactions ≡ some t
      → t.status ≡ Status.pending_approval
      → status_of tx (after d).transactions ≡ some s
  status_closed d {t} locked pending =
      status_here tx (is_pending tx) (closed now s) only_pending (λ u. refl) d.transactions t locked
        (ground (arith, find-passes (has_id tx) d.transactions t locked))

  CanMove-closed :
      (d : Db) (hole : Option ℕ)
      → (s ≢ Status.pending_approval)
      → ((t : Transaction) → hole ≡ some t.id → (t.id == tx) ≡ true)
      → All (CanMove hole d.approvals d.decisions) d.transactions
      → All (CanMove none d.approvals d.decisions) (after d).transactions
  CanMove-closed d hole ne held h =
      All-update (is_pending tx) (closed now s) d.transactions
        (λ t e moves pending. absurd (ne pending))
        (λ t e moves pending. elim (moves pending) [
          | inl at_work ↦ absurd (ground (arith, held t at_work))
          | inr live ↦ inr live
        ])
        h

  -- A rejection settles the transaction; its rows still have to follow.
  pub reject-Chains :
      (d : Db)
      → Chains (some tx) (some tx) d
      → s ≢ Status.pending_approval
      → Chains none (some tx) (after d)
  reject-Chains d c ne = record {
    transaction_ids =
        transaction_ids_after tx (is_pending tx) (closed now s) only_pending (λ t. refl)
          d.transactions c.transaction_ids;
    approval_ids = c.approval_ids;
    steps = c.steps;
    rule_steps = c.rule_steps;
    approval_fresh = c.approval_fresh;
    decision_fresh = c.decision_fresh;
    rows =
        All-map d.approvals
          (λ b h. elim h [
            | inl e ↦ inl e
            | inr row ↦ elim (Bool-cases (b.transaction_id == tx)) [
              | inl e ↦ inl (ap some (sym ((==_iff b.transaction_id tx).0 e)))
              | inr e ↦ inr (row_elsewhere d b (ground arith) row)
            ]
          ])
          c.rows;
    once = c.once;
    in_order = c.in_order;
    made = c.made;
    can_move = CanMove-closed d (some tx) ne (λ t e. ground arith) c.can_move;
  }

module _ (tx now : ℕ) (d : Db) {t : Transaction} (locked : find (has_id tx) d.transactions ≡ some t)
    (pending : t.status ≡ Status.pending_approval) where
  -- A row of the pending transaction `tx` is a PendingRow.
  pub pending_row :
      (b : Approval)
      → (b.transaction_id == tx) ≡ true
      → RowOk d.transactions d.decisions b
      → PendingRow d.decisions b
  pending_row b e h =
      subst (λ r. Fits r d.decisions b)
        (ap (λ i. status_of i d.transactions) ((==_iff b.transaction_id tx).0 e)
          ∙ status_at tx d.transactions locked
          ∙ ap some pending)
        h

  -- When every approval of the transaction is active and decided, it may be approved.
  pub approve-Chains :
      Chains (some tx) none d
      → All
          (λ b.
            of_transaction tx b ≡ true
            → (is_some b.activated_at ≡ true) × (is_decided d.decisions b.id ≡ true))
          d.approvals
      → Chains none none (after tx now Status.approved d)
  approve-Chains c done = record {
    transaction_ids =
        transaction_ids_after tx (is_pending tx) (closed now Status.approved)
          (only_pending tx now Status.approved) (λ u. refl) d.transactions c.transaction_ids;
    approval_ids = c.approval_ids;
    steps = c.steps;
    rule_steps = c.rule_steps;
    approval_fresh = c.approval_fresh;
    decision_fresh = c.decision_fresh;
    rows =
        All-map d.approvals
          (λ b h. inr (row_after b (settled d.transactions d.decisions b h.0) h.1))
          (All-pair d.approvals c.rows done);
    once = c.once;
    in_order = c.in_order;
    made = c.made;
    can_move =
        CanMove-closed tx now Status.approved d (some tx) (λ e. cc) (λ u e. ground arith)
          c.can_move;
  }
    where
      row_after :
          (b : Approval)
          → RowOk d.transactions d.decisions b
          → (of_transaction tx b ≡ true
              → (is_some b.activated_at ≡ true) × (is_decided d.decisions b.id ≡ true))
          → RowOk (after tx now Status.approved d).transactions d.decisions b
      row_after b h k = elim (Bool-cases (b.transaction_id == tx)) [
        | inl e ↦
            let row : PendingRow d.decisions b = pending_row b e h in
            subst (λ r. Fits r d.decisions b)
              (sym (
                ap (λ i. status_of i (after tx now Status.approved d).transactions)
                  ((==_iff b.transaction_id tx).0 e)
                ∙ status_closed tx now Status.approved d locked pending))
              (record {
                not_cancelled = row.not_cancelled;
                was_active = (k e).0;
                was_decided = (k e).1;
                none_rejects = row.none_rejects;
              })
        | inr e ↦ row_elsewhere tx now Status.approved d b (ground arith) h
      ]
