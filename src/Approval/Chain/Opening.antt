-- ===== src/Approval/Chain/Opening.antt =====
-- How a submitted transaction gets its chain: the status changes, then the rows are added.
use expense.Base.{
  ℕ, suc, ◌≡◌, refl, sym, ap, ◌∙◌, inl, inr, arith, subst, ℤ, pos, ◌≤ℤ◌, ◌<ℤ◌, true, false, none,
  some, [], ◌∷◌, ◌++◌, All, find, any, update, is_some, ◌==◌, ==_iff, Bool-cases, All-map, All-pair,
  All-update, All-snoc, find-passes, find-append, find-append_none, find-none, any-append,
  any-false, count-zero,
}
use expense.Store.Rows.{Status, Transaction, Approval}
use expense.Store.World.{Db}
use expense.Store.Transactions.{has_id, is_draft, submitted}
use expense.Store.Approvals.{of_transaction, is_decided, NewApproval, approval_row}
use expense.Approval.Chain.{Chains, IsValid, status_of, RowOk, Fits, InOrder, is_open, rejects}
use expense.Approval.Chain.Decision.{settled}
use expense.Approval.Chain.Transition.{status_elsewhere, status_here, transaction_ids_after}

module _ (tx now : ℕ) where
  abbrev pub opened : Db → Db
  opened d = record d { transactions = update (is_draft tx) (submitted now) d.transactions }

  only_draft : (t : Transaction) → is_draft tx t ≡ true → (t.id == tx) ≡ true
  only_draft t h = ground arith

  module _ (d : Db) (t : Transaction) (valid : IsValid d)
      (locked : find (has_id tx) d.transactions ≡ some t) (draft : t.status ≡ Status.draft) where
    -- A draft has no rows.
    pub no_rows_of_draft : All (λ b. of_transaction tx b ≡ false) d.approvals
    no_rows_of_draft =
        All-map d.approvals
          (λ b h. elim (Bool-cases (b.transaction_id == tx)) [
            | inl e ↦
                let at_draft : status_of b.transaction_id d.transactions ≡ some Status.draft =
                  ap (λ i. status_of i d.transactions) ((==_iff b.transaction_id tx).0 e)
                  ∙ ground (arith, locked) in
                absurd (
                  subst (λ r. Fits r d.decisions b) at_draft
                    (settled d.transactions d.decisions b h))
            | inr e ↦ e
          ])
          valid.rows

    pub status_opened :
        t.deleted_at ≡ none → status_of tx (opened d).transactions ≡ some Status.pending_approval
    status_opened live =
        status_here tx (is_draft tx) (submitted now) only_draft (λ u. refl) d.transactions t locked
          (ground (arith, find-passes (has_id tx) d.transactions t locked))

    pub opened-Chains : Chains (some tx) none (opened d)
    opened-Chains = record {
      transaction_ids =
          transaction_ids_after tx (is_draft tx) (submitted now) only_draft (λ u. refl)
            d.transactions valid.transaction_ids;
      approval_ids = valid.approval_ids;
      steps = valid.steps;
      rule_steps = valid.rule_steps;
      approval_fresh = valid.approval_fresh;
      decision_fresh = valid.decision_fresh;
      rows =
          All-map d.approvals
            (λ b h. inr (
              subst (λ r. Fits r d.decisions b)
                (sym (
                  status_elsewhere tx (is_draft tx) (submitted now) only_draft (λ u. refl)
                    b.transaction_id d.transactions (ground arith)))
                (settled d.transactions d.decisions b h.0)))
            (All-pair d.approvals valid.rows no_rows_of_draft);
      once = valid.once;
      in_order = valid.in_order;
      made = valid.made;
      can_move =
          All-update (is_draft tx) (submitted now) d.transactions
            (λ u e moves pending. inl (ap some (sym ((==_iff u.id tx).0 (only_draft u e)))))
            (λ u e moves pending. elim (moves pending) [
              | inl x ↦ absurd (ground arith)
              | inr live ↦ inr live
            ])
            valid.can_move;
    }

-- While the rows are added: those of `tx` stand at or after the first step, and are active
-- exactly there.
pub record Opening (tx : ℕ) (first : ℤ) (d : Db) : Type 0 where
  pub chains : Chains (some tx) none d
  pub pending : status_of tx d.transactions ≡ some Status.pending_approval
  pub ahead :
      All
        (λ b.
          of_transaction tx b ≡ true
          → (first ≤ℤ b.step) × (is_some b.activated_at ≡ true → b.step ≡ first))
        d.approvals

-- One more row.
module _ (tx now : ℕ) (first : ℤ) (d : Db) (p : NewApproval) (o : Opening tx first d)
    (mine : p.transaction_id ≡ tx) (positive : pos 1 ≤ℤ p.step) (later : first ≤ℤ p.step)
    (active_first : is_some p.activated_at ≡ true → p.step ≡ first) where
  abbrev new : Approval
  new = approval_row now d.next_id p

  abbrev pub added : Db
  added = record d { approvals = d.approvals ++ new ∷ []; next_id = suc d.next_id }

  pub undecided : is_decided d.decisions d.next_id ≡ false
  undecided =
      any-false (λ x. x.approval_id == d.next_id) d.decisions
        (All-map d.decisions (λ x h. ground arith) o.chains.decision_fresh)

  unrejected : any (rejects d.next_id) d.decisions ≡ false
  unrejected =
      any-false (rejects d.next_id) d.decisions
        (All-map d.decisions (λ x h. ground arith) o.chains.decision_fresh)

  new_row : RowOk d.transactions d.decisions new
  new_row =
      subst (λ r. Fits r d.decisions new)
        (sym (ap (λ i. status_of i d.transactions) mine ∙ o.pending))
        (record {
          not_cancelled = refl;
          decided_active = λ e. ground (arith, undecided);
          none_rejects = unrejected;
        })

  late_absurd : (s x : ℤ) → s ≡ first → x <ℤ s → first ≤ℤ x → ⊥
  late_absurd s x e lt le = let lt' : x <ℤ first = subst (λ y. x <ℤ y) e lt in omega arith

  -- Active rows are at the first step, and no row comes before it.
  InOrder-added :
      All (λ a. All (InOrder d.decisions a) (d.approvals ++ new ∷ [])) (d.approvals ++ new ∷ [])
  InOrder-added =
      All-snoc d.approvals new
        (All-map d.approvals
          (λ a h. All-snoc d.approvals new h.0 (λ same active lower.
            let own : of_transaction tx a ≡ true = ground arith in
            absurd (late_absurd a.step p.step ((h.1 own).1 active) lower later)))
          (All-pair d.approvals o.chains.in_order o.ahead))
        (All-snoc d.approvals new
          (All-map d.approvals
            (λ b h same active lower.
              let own : of_transaction tx b ≡ true = ground arith in
              absurd (late_absurd p.step b.step (active_first active) lower (h own).0))
            o.ahead)
          (λ same active lower. absurd (omega arith)))

  find-new : find (λ b. b.id == d.next_id) (d.approvals ++ new ∷ []) ≡ some new
  find-new =
      find-append_none (λ b. b.id == d.next_id) d.approvals (new ∷ [])
        (find-none (λ b. b.id == d.next_id) d.approvals
          (All-map d.approvals (λ b h. ground arith) o.chains.approval_fresh))
      ∙ ground arith

  pub added-Opening : Opening tx first added
  added-Opening = record {
    chains = record {
      transaction_ids = o.chains.transaction_ids;
      approval_ids =
          All-snoc d.approvals new
            (All-map d.approvals (λ a h. find-append (λ b. b.id == a.id) d.approvals (new ∷ []) a h)
              o.chains.approval_ids)
            find-new;
      steps = All-snoc d.approvals new o.chains.steps positive;
      rule_steps = o.chains.rule_steps;
      approval_fresh =
          All-snoc d.approvals new
            (All-map d.approvals (λ a h. omega arith) o.chains.approval_fresh) (omega arith);
      decision_fresh = All-map d.decisions (λ x h. omega arith) o.chains.decision_fresh;
      rows = All-snoc d.approvals new o.chains.rows (inr new_row);
      once =
          All-snoc d.approvals new o.chains.once
            (ground (arith, count-zero (λ x. x.approval_id == d.next_id) d.decisions undecided));
      in_order = InOrder-added;
      made =
          All-map d.decisions
            (λ x h.
              (h.0, find-append (λ b. b.id == x.approval_id) d.approvals (new ∷ []) h.0 h.1, h.2))
            o.chains.made;
      can_move =
          All-map d.transactions
            (λ t h still. elim (h still) [
              | inl e ↦ inl e
              | inr live ↦
                  inr (ground (arith, any-append (is_open t.id d.decisions) d.approvals (new ∷ [])))
            ])
            o.chains.can_move;
    };
    pending = o.pending;
    ahead = All-snoc d.approvals new o.ahead (λ own. (later, active_first));
  }

  -- A row at the first step can be decided, once and for all.
  pub added_open :
      is_some p.activated_at ≡ true → any (is_open tx d.decisions) (d.approvals ++ new ∷ []) ≡ true
  added_open active =
      ground (arith, undecided, any-append (is_open tx d.decisions) d.approvals (new ∷ []))

  pub still_open :
      any (is_open tx d.decisions) d.approvals ≡ true
      → any (is_open tx d.decisions) (d.approvals ++ new ∷ []) ≡ true
  still_open live = ground (arith, any-append (is_open tx d.decisions) d.approvals (new ∷ []))

-- Once one of its rows is open, the transaction is like any other.
pub opening_done :
    (tx : ℕ) (d : Db)
    → Chains (some tx) none d
    → any (is_open tx d.decisions) d.approvals ≡ true
    → IsValid d
opening_done tx d c live = record {
  transaction_ids = c.transaction_ids;
  approval_ids = c.approval_ids;
  steps = c.steps;
  rule_steps = c.rule_steps;
  approval_fresh = c.approval_fresh;
  decision_fresh = c.decision_fresh;
  rows = c.rows;
  once = c.once;
  in_order = c.in_order;
  made = c.made;
  can_move =
      All-map d.transactions
        (λ t h pending. elim (h pending) [
          | inl e ↦
              let same : tx ≡ t.id = cc in
              inr (subst (λ i. any (is_open i d.decisions) d.approvals ≡ true) same live)
          | inr open_row ↦ inr open_row
        ])
        c.can_move;
}
