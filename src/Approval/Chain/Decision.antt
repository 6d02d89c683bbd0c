-- ===== src/Approval/Chain/Decision.antt =====
-- What one more row in `approval_decisions` does to the chains.
use expense.Base.{
  ℕ, suc, ◌<◌, ◌≤◌, ◌≡◌, ◌≢◌, sym, ap, ◌∙◌, inl, inr, ◌⊎◌, arith, true, false, ◌||◌, Option, none,
  some, List, [], ◌∷◌, ◌++◌, All, find, any, count, is_some, ◌==◌, ==_iff, Bool-cases, All-map,
  All-pair, All-find, subst, All-snoc, any-append, any-congr, count-append, count-zero,
}
use expense.Store.Rows.{Status, is_rejected, Transaction, Approval, ApprovalDecision}
use expense.Store.World.{Db}
use expense.Store.Approvals.{is_decided}
use expense.Approval.Chain.{
  Chains, IsValid, status_of, RowOk, Fits, InOrder, CanMove, MadeByApprover, is_open, rejects,
}

module _ (ds : List ApprovalDecision) (x : ApprovalDecision) where
  pub decided-snoc :
      (id : ℕ) → is_decided (ds ++ x ∷ []) id ≡ (is_decided ds id || x.approval_id == id)
  decided-snoc id = ground (arith, any-append (λ y. y.approval_id == id) ds (x ∷ []))

  pub decided_mono : (id : ℕ) → is_decided ds id ≡ true → is_decided (ds ++ x ∷ []) id ≡ true
  decided_mono id h = ground (arith, decided-snoc id)

  pub rejects-snoc :
      is_rejected x.decision ≡ false
      → (id : ℕ) → any (rejects id) (ds ++ x ∷ []) ≡ any (rejects id) ds
  rejects-snoc h id = ground (arith, any-append (rejects id) ds (x ∷ []))

  -- A decision that is about another row leaves the row as it is.
  rejects-elsewhere :
      (id : ℕ)
      → (x.approval_id == id) ≡ false
      → any (rejects id) (ds ++ x ∷ []) ≡ any (rejects id) ds
  rejects-elsewhere id e = ground (arith, any-append (rejects id) ds (x ∷ []))

  Fits-elsewhere :
      (s : Option Status) (b : Approval)
      → (x.approval_id == b.id) ≡ false
      → Fits s ds b
      → Fits s (ds ++ x ∷ []) b
  Fits-elsewhere none b e h = h
  Fits-elsewhere (some Status.draft) b e h = h
  Fits-elsewhere (some Status.pending_approval) b e h = record {
    not_cancelled = h.not_cancelled;
    decided_active = λ t. ground (arith, decided-snoc b.id, h.decided_active);
    none_rejects = rejects-elsewhere b.id e ∙ h.none_rejects;
  }
  Fits-elsewhere (some Status.approved) b e h = record {
    not_cancelled = h.not_cancelled;
    was_active = h.was_active;
    was_decided = decided_mono b.id h.was_decided;
    none_rejects = rejects-elsewhere b.id e ∙ h.none_rejects;
  }
  Fits-elsewhere (some Status.rejected) b e (inl h) = inl (decided_mono b.id h)
  Fits-elsewhere (some Status.rejected) b e (inr h) = inr h

  -- An approving decision about an active row leaves it fit for its transaction's status.
  Fits-approved :
      is_rejected x.decision ≡ false
      → (s : Option Status) (b : Approval) → is_some b.activated_at ≡ true
      → Fits s ds b
      → Fits s (ds ++ x ∷ []) b
  Fits-approved yes_word none b active h = h
  Fits-approved yes_word (some Status.draft) b active h = h
  Fits-approved yes_word (some Status.pending_approval) b active h = record {
    not_cancelled = h.not_cancelled;
    decided_active = λ t. active;
    none_rejects = rejects-snoc yes_word b.id ∙ h.none_rejects;
  }
  Fits-approved yes_word (some Status.approved) b active h = record {
    not_cancelled = h.not_cancelled;
    was_active = active;
    was_decided = decided_mono b.id h.was_decided;
    none_rejects = rejects-snoc yes_word b.id ∙ h.none_rejects;
  }
  Fits-approved yes_word (some Status.rejected) b active (inl h) = inl (decided_mono b.id h)
  Fits-approved yes_word (some Status.rejected) b active (inr h) = inr h

pub settled :
    (ts : List Transaction) (ds : List ApprovalDecision) (a : Approval)
    → ◌≡◌ {A = Option ℕ} none (some a.transaction_id) ⊎ RowOk ts ds a
    → RowOk ts ds a
settled ts ds a (inl e) = absurd (ground arith)
settled ts ds a (inr h) = h

-- The decision `x` of the approval `a`, which had none.
module _ (d : Db) (a : Approval) (x : ApprovalDecision) (valid : IsValid d)
    (about : x.approval_id ≡ a.id) (found : find (λ b. b.id == a.id) d.approvals ≡ some a)
    (undecided : is_decided d.decisions a.id ≡ false) (mine : a.approver_id ≡ x.decided_by) where
  abbrev after : List ApprovalDecision
  after = d.decisions ++ x ∷ []

  -- Ids are unique, so the row that the decision is about is `a`.
  same_row :
      (b : Approval)
      → find (λ c. c.id == b.id) d.approvals ≡ some b
      → (x.approval_id == b.id) ≡ true
      → b ≡ a
  same_row b own e =
      let ids : b.id ≡ a.id = sym ((==_iff x.approval_id b.id).0 e) ∙ about in
      let both : some b ≡ some a =
        sym own ∙ ap (λ i. find (λ c. c.id == i) d.approvals) ids ∙ found in
      cc

  fresh_count : (b : Approval) → b ≡ a → count (λ y. y.approval_id == b.id) d.decisions ≡ 0
  fresh_count b same = rw same (count-zero (λ y. y.approval_id == a.id) d.decisions undecided)

  once_after : All (λ b. count (λ y. y.approval_id == b.id) after ≤ 1) d.approvals
  once_after =
      All-map d.approvals
        (λ b h. elim (Bool-cases (x.approval_id == b.id)) [
          | inl e ↦ ground (
            arith,
            fresh_count b (same_row b h.1 e),
            count-append (λ y. y.approval_id == b.id) d.decisions (x ∷ []),
          )
          | inr e ↦
              ground (arith, count-append (λ y. y.approval_id == b.id) d.decisions (x ∷ []), h.0)
        ])
        (All-pair d.approvals valid.once valid.approval_ids)

  InOrder-after : All (λ b. All (InOrder after b) d.approvals) d.approvals
  InOrder-after =
      All-map d.approvals
        (λ b h.
          All-map d.approvals
            (λ c k same active lower. decided_mono d.decisions x c.id (k same active lower)) h)
        valid.in_order

  made_after : All (MadeByApprover d.approvals) after
  made_after = All-snoc d.decisions x valid.made (a, rw about found, mine)

  -- An open approval of another transaction stays open.
  open_elsewhere :
      (tx : ℕ)
      → tx ≢ a.transaction_id
      → any (is_open tx after) d.approvals ≡ any (is_open tx d.decisions) d.approvals
  open_elsewhere tx ne = any-congr (is_open tx after) (is_open tx d.decisions) d.approvals (
      All-map d.approvals
        (λ b own. elim (Bool-cases (x.approval_id == b.id)) [
          | inl e ↦
              let same : b ≡ a = same_row b own e in
              let away : (b.transaction_id == tx) ≡ false = rw same (ground arith) in
              ground (arith, away)
          | inr e ↦ ground (arith, decided-snoc d.decisions x b.id)
        ])
        valid.approval_ids)

  CanMove-after : All (CanMove (some a.transaction_id) d.approvals after) d.transactions
  CanMove-after =
      All-map d.transactions
        (λ t h pending. elim (Bool-cases (t.id == a.transaction_id)) [
          | inl e ↦ inl (ap some (sym ((==_iff t.id a.transaction_id).0 e)))
          | inr e ↦ elim (h pending) [
            | inl none_is ↦ absurd (ground arith)
            | inr live ↦ inr (open_elsewhere t.id (ground arith) ∙ live)
          ]
        ])
        valid.can_move

  decision_fresh_after : All (λ y. y.approval_id < suc d.next_id) after
  decision_fresh_after =
      let here : (a.id < d.next_id) × ((a.id == a.id) ≡ true) =
        All-find (λ b. b.id == a.id) d.approvals valid.approval_fresh found in
      All-snoc d.decisions x (All-map d.decisions (λ y h. omega arith) valid.decision_fresh)
        (rw about (omega (arith, here.0)))

  row_after :
      is_rejected x.decision ≡ false
      → is_some a.activated_at ≡ true
      → (b : Approval) → find (λ c. c.id == b.id) d.approvals ≡ some b
      → RowOk d.transactions d.decisions b
      → RowOk d.transactions after b
  row_after yes_word active b own h = elim (Bool-cases (x.approval_id == b.id)) [
    | inl e ↦
        Fits-approved d.decisions x yes_word (status_of b.transaction_id d.transactions) b
          (subst (λ (c : Approval). is_some c.activated_at ≡ true) (sym (same_row b own e)) active)
          h
    | inr e ↦ Fits-elsewhere d.decisions x (status_of b.transaction_id d.transactions) b e h
  ]

  -- While the transaction's status is not yet brought up to date, its rows are left out.
  pub decision-Chains :
      Chains
        (some a.transaction_id)
        (some a.transaction_id)
        (record d { decisions = after; next_id = suc d.next_id })
  decision-Chains = record {
    transaction_ids = valid.transaction_ids;
    approval_ids = valid.approval_ids;
    steps = valid.steps;
    rule_steps = valid.rule_steps;
    approval_fresh = All-map d.approvals (λ b h. omega arith) valid.approval_fresh;
    decision_fresh = decision_fresh_after;
    rows =
        All-map d.approvals
          (λ b h. elim (Bool-cases (x.approval_id == b.id)) [
            | inl e ↦ inl (ap (λ (c : Approval). some c.transaction_id) (sym (same_row b h.1 e)))
            | inr e ↦ inr (
                Fits-elsewhere d.decisions x (status_of b.transaction_id d.transactions) b e
                  (settled d.transactions d.decisions b h.0))
          ])
          (All-pair d.approvals valid.rows valid.approval_ids);
    once = once_after;
    in_order = InOrder-after;
    made = made_after;
    can_move = CanMove-after;
  }

  -- After an approving decision on an active approval every row still fits.
  pub approval-Chains :
      is_rejected x.decision ≡ false
      → is_some a.activated_at ≡ true
      → Chains
          (some a.transaction_id)
          none
          (record d { decisions = after; next_id = suc d.next_id })
  approval-Chains yes_word active = record {
    transaction_ids = valid.transaction_ids;
    approval_ids = valid.approval_ids;
    steps = valid.steps;
    rule_steps = valid.rule_steps;
    approval_fresh = All-map d.approvals (λ b h. omega arith) valid.approval_fresh;
    decision_fresh = decision_fresh_after;
    rows =
        All-map d.approvals
          (λ b h. inr (row_after yes_word active b h.1 (settled d.transactions d.decisions b h.0)))
          (All-pair d.approvals valid.rows valid.approval_ids);
    once = once_after;
    in_order = InOrder-after;
    made = made_after;
    can_move = CanMove-after;
  }
