-- ===== src/Approval/Outcomes.antt =====
-- What the approval chains promise of every database that requests lead to.
use expense.Base.{
  ◌≤◌, ◌≡◌, sym, ◌∙◌, inl, inr, arith, subst, ap, ◌<ℤ◌, Bool, true, false, ◌&&◌, none, some,
  All-find, find, any, count, is_some, ◌==◌, ==_iff, Bool-cases, refl, Option-cases, List, [], ◌∷◌,
}
use expense.Store.Rows.{Status, Transaction, Approval, ApprovalDecision, is_rejected}
use expense.Store.World.{Db}
use expense.Store.Transactions.{has_id}
use expense.Store.Approvals.{is_decided, of_transaction}
use expense.Approval.Chain.{IsValid, Fits, status_of, is_open, ApprovedRow}
use expense.Approval.Requests.{Reachable, Reachable-IsValid}

find-of_any :
    {A : Type 0} (p : A → Bool) (xs : List A) → any p xs ≡ true → (a : A) × (find p xs ≡ some a)
find-of_any p xs e = elim (Option-cases (find p xs)) [
  | inl n ↦ absurd (nothing p xs n e)
  | inr f ↦ f
]
  where
    nothing : {A : Type 0} (p : A → Bool) (xs : List A) → find p xs ≡ none → any p xs ≡ true → ⊥
    nothing p [] n e = cc
    nothing p (x ∷ xs) n e = ground (arith, nothing p xs)

not_any-find :
    {A : Type 0} (p q : A → Bool) (xs : List A) (a : A)
    → any (λ x. p x && q x) xs ≡ false
    → find p xs ≡ some a
    → q a ≡ false
not_any-find p q [] a n e = cc
not_any-find p q (x ∷ xs) a n e = ground (arith, not_any-find p q xs a)

-- An approval that was given: it stands, its turn came, and its own approver decided it, not by a
-- rejection.
pub record GivenByApprover (d : Db) (a : Approval) : Type 0 where
  pub stands : a.cancelled_at ≡ none
  pub was_active : is_some a.activated_at ≡ true
  pub decision : ApprovalDecision
  pub recorded : find (λ x. x.approval_id == a.id) d.decisions ≡ some decision
  pub by_approver : decision.decided_by ≡ a.approver_id
  pub not_rejected : is_rejected decision.decision ≡ false

-- The rows of a transaction fit its status.
row-Fits :
    (d : Db) (t : Transaction) (a : Approval)
    → IsValid d
    → find (has_id t.id) d.transactions ≡ some t
    → find (λ b. b.id == a.id) d.approvals ≡ some a
    → a.transaction_id ≡ t.id
    → Fits (some t.status) d.decisions a
row-Fits d t a h known there mine = elim (All-find (λ b. b.id == a.id) d.approvals h.rows there).0 [
  | inl e ↦ cc
  | inr fits ↦
      let same : status_of a.transaction_id d.transactions ≡ some t.status =
        rw (mine, known) refl in
      subst (λ s. Fits s d.decisions a) same fits
]

given :
    (d : Db) (a : Approval)
    → IsValid d
    → find (λ b. b.id == a.id) d.approvals ≡ some a
    → ApprovedRow d.decisions a
    → GivenByApprover d a
given d a h there row =
    let (x, found) = find-of_any (λ x. x.approval_id == a.id) d.decisions row.was_decided in
    let f = All-find (λ y. y.approval_id == a.id) d.decisions h.made found in
    let its : x.approval_id ≡ a.id = (==_iff x.approval_id a.id).0 f.1 in
    let same : f.0.0 ≡ a =
      ground (
        arith,
        sym (subst (λ i. find (λ b. b.id == i) d.approvals ≡ some f.0.0) its f.0.1),
        there,
      ) in
    record {
      stands = row.not_cancelled;
      was_active = row.was_active;
      decision = x;
      recorded = found;
      by_approver = sym f.0.2 ∙ ap (λ b. b.approver_id) same;
      not_rejected =
          not_any-find (λ y. y.approval_id == a.id) (λ y. is_rejected y.decision) d.decisions x
            row.none_rejects found;
    }

module _ {first d : Db} where
  -- Of an approved transaction every approval was given by its own approver: it stands, its turn
  -- came, and the approver's recorded decision is no rejection. This is so in every database that
  -- requests reach from one with valid chains.
  pub approved_by_all :
      IsValid first
      → Reachable first d
      → (t : Transaction) (a : Approval) → find (has_id t.id) d.transactions ≡ some t
      → t.status ≡ Status.approved
      → find (λ b. b.id == a.id) d.approvals ≡ some a
      → a.transaction_id ≡ t.id
      → GivenByApprover d a
  approved_by_all h r t a known approved there mine =
      let v = Reachable-IsValid h r in
      given d a v there
        (subst (λ s. Fits (some s) d.decisions a) approved (row-Fits d t a v known there mine))

  -- A pending transaction is never stuck: in every database that requests reach from one with
  -- valid chains, it has an approval that is active, not cancelled and not decided.
  pub pending_can_move :
      IsValid first
      → Reachable first d
      → (t : Transaction) → find (has_id t.id) d.transactions ≡ some t
      → t.status ≡ Status.pending_approval
      → any (is_open t.id d.decisions) d.approvals ≡ true
  pending_can_move h r t known pending =
      elim ((All-find (has_id t.id) d.transactions (Reachable-IsValid h r).can_move known).0
        pending) [ inl e ↦ cc | inr e ↦ e ]

  -- A rejected transaction is over: in every database that requests reach from one with valid
  -- chains, none of its approvals can be decided any more.
  pub rejected_is_closed :
      IsValid first
      → Reachable first d
      → (t : Transaction) (a : Approval) → find (has_id t.id) d.transactions ≡ some t
      → t.status ≡ Status.rejected
      → find (λ b. b.id == a.id) d.approvals ≡ some a
      → is_open t.id d.decisions a ≡ false
  rejected_is_closed h r t a known rejected there = elim (Bool-cases (of_transaction t.id a)) [
    | inr e ↦ rw e refl
    | inl e ↦
        let mine : a.transaction_id ≡ t.id = (==_iff a.transaction_id t.id).0 e in
        elim (subst (λ s. Fits (some s) d.decisions a) rejected
          (row-Fits d t a (Reachable-IsValid h r) known there mine)) [
            | inl decided ↦ ground (arith, decided)
            | inr cancelled ↦ ground (arith, cancelled)
          ]
  ]

  -- Steps go in order: in every database that requests reach from one with valid chains, an
  -- approval is active only when each approval of its transaction with a smaller step is decided.
  pub steps_in_order :
      IsValid first
      → Reachable first d
      → (a b : Approval) → find (λ x. x.id == a.id) d.approvals ≡ some a
      → find (λ x. x.id == b.id) d.approvals ≡ some b
      → a.transaction_id ≡ b.transaction_id
      → is_some a.activated_at ≡ true
      → b.step <ℤ a.step
      → is_decided d.decisions b.id ≡ true
  steps_in_order h r a b there there' same active earlier =
      (All-find (λ x. x.id == b.id) d.approvals
          (All-find (λ x. x.id == a.id) d.approvals (Reachable-IsValid h r).in_order there).0
          there').0
        same active earlier

  -- An approval is decided once at most, in every database that requests reach from one with
  -- valid chains.
  pub decided_once :
      IsValid first
      → Reachable first d
      → (a : Approval) → find (λ b. b.id == a.id) d.approvals ≡ some a
      → count (λ x. x.approval_id == a.id) d.decisions ≤ 1
  decided_once h r a there =
      (All-find (λ b. b.id == a.id) d.approvals (Reachable-IsValid h r).once there).0
