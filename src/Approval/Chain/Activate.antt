-- ===== src/Approval/Chain/Activate.antt =====
-- After an approval: the next step goes active, or the chain waits, or the transaction is approved.
use expense.Base.{
  ℕ, ◌≡◌, refl, sym, ap, ◌∙◌, inl, inr, arith, subst, ℤ, pos, negsuc, ◌≤ℤ◌, ◌<ℤ◌, eq_ℤ, ltb, Bool,
  true, false, ◌&&◌, none, some, List, All, filter, find, any, update, sort_by, is_some, ◌==◌,
  ==_iff, if◌then◌else◌, Bool-cases, All-map, All-pair, All-update, All-every, All-sort_by,
  All-of_sort_by, All-of_filter, All-filter, find-update, any-update, any-sort_by, any-filter,
  any_mono, any-find_and, any-update_hit, any-congr,
}
use expense.Store.Rows.{Status, Approval, ApprovalDecision}
use expense.Store.World.{Db}
use expense.Store.Approvals.{of_transaction, is_decided, is_waiting, in_step_order}
use expense.Approval.Decide.{find_next_step}
use expense.Approval.Chain.{
  Chains, IsValid, status_of, RowOk, Fits, PendingRow, InOrder, MadeByApprover, is_open,
}
use expense.Approval.Chain.Decision.{settled}
use expense.Approval.Chain.Next.{is_idle, NextStep, find_next_step-NextStep}
use expense.Approval.Chain.Opening.{opening_done}

-- The two lists that `activateNext` reads.
abbrev pub chain_of : ℕ → Db → List Approval
chain_of tx d = sort_by in_step_order (filter (of_transaction tx) d.approvals)

abbrev belongs : ℕ → Db → ApprovalDecision → Bool
belongs tx d x = any (λ a. a.id == x.approval_id && of_transaction tx a) d.approvals

abbrev pub decisions_of : ℕ → Db → List ApprovalDecision
decisions_of tx d =
    sort_by (λ x y. ltb x.decided_at y.decided_at) (filter (belongs tx d) d.decisions)

-- Of the chain's own rows the list of decisions tells all.
pub decided-decisions_of :
    (tx : ℕ) (d : Db) (a : Approval)
    → find (λ b. b.id == a.id) d.approvals ≡ some a
    → of_transaction tx a ≡ true
    → is_decided (decisions_of tx d) a.id ≡ is_decided d.decisions a.id
decided-decisions_of tx d a own mine =
    any-sort_by (λ x. x.approval_id == a.id) (λ x y. ltb x.decided_at y.decided_at)
      (filter (belongs tx d) d.decisions)
    ∙ any-filter (λ x. x.approval_id == a.id) (belongs tx d) d.decisions
    ∙ any-congr (λ x. belongs tx d x && x.approval_id == a.id) (λ x. x.approval_id == a.id)
        d.decisions
        (All-every d.decisions (λ x. elim (Bool-cases (x.approval_id == a.id)) [
          | inl e ↦
              let same : a.id ≡ x.approval_id = sym ((==_iff x.approval_id a.id).0 e) in
              let there : belongs tx d x ≡ true =
                any-find_and (λ b. b.id == x.approval_id) (of_transaction tx) d.approvals a
                  (subst (λ i. find (λ b. b.id == i) d.approvals ≡ some a) same own) mine in
              ground arith
          | inr e ↦ ground arith
        ]))

-- A row of the chain: where none of the listed rows has `P`, no row of the table that belongs to
-- the transaction has.
pub All-chain_of :
    {P : Approval → Type 0} (tx : ℕ) (d : Db)
    → All P (chain_of tx d)
    → All (λ a. of_transaction tx a ≡ true → P a) d.approvals
All-chain_of tx d h =
    All-of_filter (of_transaction tx) d.approvals
      (All-of_sort_by in_step_order (filter (of_transaction tx) d.approvals) h)

pub any-chain_of :
    (tx : ℕ) (d : Db) (p : Approval → Bool)
    → any p (chain_of tx d) ≡ any (λ a. of_transaction tx a && p a) d.approvals
any-chain_of tx d p =
    any-sort_by p in_step_order (filter (of_transaction tx) d.approvals)
    ∙ any-filter p (of_transaction tx) d.approvals

-- What the loop's result says of the table's rows.
pub next_of_chain :
    (tx : ℕ) (d : Db) (s : ℤ)
    → All (λ a. pos 1 ≤ℤ a.step) d.approvals
    → find_next_step (decisions_of tx d) (negsuc 0) (chain_of tx d) ≡ some s
    → NextStep (decisions_of tx d) (negsuc 0) s (chain_of tx d)
next_of_chain tx d s steps e =
    find_next_step-NextStep (decisions_of tx d) (negsuc 0) s (chain_of tx d)
      (All-sort_by in_step_order (filter (of_transaction tx) d.approvals)
        (All-filter (of_transaction tx) d.approvals steps))
      (inl refl) e

module _ (tx now : ℕ) (s : ℤ) where
  abbrev pub wake : Approval → Approval
  wake a = record a { activated_at = some now }

  abbrev pub awake : Db → Db
  awake d = record d { approvals = update (is_waiting tx s) wake d.approvals }

  module _ (d : Db) (c : Chains (some tx) none d)
      (pending : status_of tx d.transactions ≡ some Status.pending_approval)
      (n : NextStep (decisions_of tx d) (negsuc 0) s (chain_of tx d))
      (real : eq_ℤ s (negsuc 0) ≡ false) where
    abbrev hit : Approval → Bool
    hit = is_waiting tx s

    -- Every active row of the chain is decided.
    settled_rows :
        All
          (λ a.
            of_transaction tx a ≡ true
            → a.cancelled_at ≡ none
            → is_some a.activated_at ≡ true
            → is_decided d.decisions a.id ≡ true)
          d.approvals
    settled_rows =
        All-map d.approvals
          (λ a h mine stands active. ground (arith, h.0 mine, decided-decisions_of tx d a h.1 mine))
          (All-pair d.approvals (All-chain_of tx d n.none_owing) c.approval_ids)

    least_rows : All (λ a. of_transaction tx a ≡ true → is_idle a ≡ true → s ≤ℤ a.step) d.approvals
    least_rows = All-map d.approvals (λ a h mine idle. (h mine idle).1) (All-chain_of tx d n.least)

    pending_row :
        (a : Approval)
        → of_transaction tx a ≡ true
        → RowOk d.transactions d.decisions a
        → PendingRow d.decisions a
    pending_row a mine h =
        subst (λ r. Fits r d.decisions a)
          (ap (λ i. status_of i d.transactions) ((==_iff a.transaction_id tx).0 mine) ∙ pending) h

    woken_row :
        (a : Approval)
        → hit a ≡ true
        → RowOk d.transactions d.decisions a
        → RowOk d.transactions d.decisions (wake a)
    woken_row a e h =
        let mine : of_transaction tx a ≡ true = ground arith in
        let row : PendingRow d.decisions a = pending_row a mine h in
        subst (λ r. Fits r d.decisions (wake a))
          (sym
            (ap (λ i. status_of i d.transactions) ((==_iff a.transaction_id tx).0 mine) ∙ pending))
          (record {
            not_cancelled = row.not_cancelled;
            decided_active = λ _. refl;
            none_rejects = row.none_rejects;
          })

    -- A row before the woken step was active, and so is decided.
    before_woken :
        (a b : Approval)
        → hit a ≡ true
        → (of_transaction tx b ≡ true
            → b.cancelled_at ≡ none
            → is_some b.activated_at ≡ true
            → is_decided d.decisions b.id ≡ true)
        → (of_transaction tx b ≡ true → is_idle b ≡ true → s ≤ℤ b.step)
        → RowOk d.transactions d.decisions b
        → a.transaction_id ≡ b.transaction_id
        → b.step <ℤ a.step
        → is_decided d.decisions b.id ≡ true
    before_woken a b e done least row same lower =
        let mine : of_transaction tx b ≡ true = ground arith in
        let p : PendingRow d.decisions b = pending_row b mine row in
        elim (Bool-cases (is_some b.activated_at)) [
          | inl active ↦ done mine p.not_cancelled active
          | inr idle ↦ absurd (ground (arith, least mine, p.not_cancelled))
        ]

    facts :
        All
          (λ b.
            (of_transaction tx b ≡ true
              → b.cancelled_at ≡ none
              → is_some b.activated_at ≡ true
              → is_decided d.decisions b.id ≡ true)
            × ((of_transaction tx b ≡ true → is_idle b ≡ true → s ≤ℤ b.step)
                × RowOk d.transactions d.decisions b))
          d.approvals
    facts = All-pair d.approvals settled_rows (
        All-pair d.approvals least_rows
          (All-map d.approvals (λ b h. settled d.transactions d.decisions b h) c.rows))

    InOrder-awake :
        All
          (λ a. All (InOrder d.decisions a) (update hit wake d.approvals))
          (update hit wake d.approvals)
    InOrder-awake =
        All-update hit wake d.approvals
          (λ a e h.
            All-update hit wake d.approvals
              (λ b f k same active lower. before_woken a b e k.0 k.1.0 k.1.1 same lower)
              (λ b f k same active lower. before_woken a b e k.0 k.1.0 k.1.1 same lower) facts)
          (λ a e h. All-update hit wake d.approvals (λ b f k. k) (λ b f k. k) h) c.in_order

    made_awake : All (MadeByApprover (update hit wake d.approvals)) d.decisions
    made_awake =
        All-map d.decisions
          (λ x h. (
            (if hit h.0 then wake h.0 else h.0),
            find-update (λ b. b.id == x.approval_id) hit wake d.approvals (λ b. refl)
                ∙ ground (arith, h.1),
            ground (arith, h.2),
          ))
          c.made

    -- A waiting row of the step is there, is undecided, and so opens.
    opens : any (is_open tx d.decisions) (update hit wake d.approvals) ≡ true
    opens = elim n.reached [
      | inl e ↦ absurd (ground arith)
      | inr e ↦
          any-update_hit (is_open tx d.decisions) hit wake d.approvals
            (All-map d.approvals (λ a h. settled d.transactions d.decisions a h) c.rows)
            (λ a row there.
              let p : PendingRow d.decisions a = pending_row a (ground arith) row in
              ground (arith, p.decided_active))
            (any_mono (λ a. of_transaction tx a && (is_idle a && eq_ℤ a.step s)) hit d.approvals
              (λ a there. ground arith)
              (sym (any-chain_of tx d (λ a. is_idle a && eq_ℤ a.step s)) ∙ e))
    ]

    pub awake-IsValid : IsValid (awake d)
    awake-IsValid =
        opening_done tx (awake d)
          (record {
            transaction_ids = c.transaction_ids;
            approval_ids =
                All-update hit wake d.approvals
                  (λ a e own.
                    find-update (λ b. b.id == a.id) hit wake d.approvals (λ b. refl) ∙ ground arith)
                  (λ a e own.
                    find-update (λ b. b.id == a.id) hit wake d.approvals (λ b. refl) ∙ ground arith)
                  c.approval_ids;
            steps = All-update hit wake d.approvals (λ a e h. h) (λ a e h. h) c.steps;
            rule_steps = c.rule_steps;
            approval_fresh =
                All-update hit wake d.approvals (λ a e h. h) (λ a e h. h) c.approval_fresh;
            decision_fresh = c.decision_fresh;
            rows =
                All-update hit wake d.approvals
                  (λ a e h. inr (woken_row a e (settled d.transactions d.decisions a h)))
                  (λ a e h. h) c.rows;
            once = All-update hit wake d.approvals (λ a e h. h) (λ a e h. h) c.once;
            in_order = InOrder-awake;
            made = made_awake;
            can_move =
                All-map d.transactions
                  (λ t h still. elim (h still) [
                    | inl e ↦ inl e
                    | inr live ↦ elim (Bool-cases (t.id == tx)) [
                      | inl e ↦ inl (ap some (sym ((==_iff t.id tx).0 e)))
                      | inr e ↦ inr (
                          any-update (is_open t.id d.decisions) hit wake d.approvals
                            (λ b there. ground arith)
                          ∙ live)
                    ]
                  ])
                  c.can_move;
          })
          opens
