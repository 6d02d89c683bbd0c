-- ===== src/Approval/Valid/Opening.antt =====
-- The rows that `Submit` makes, one for each rule.
use expense.Base.{
  ℕ, ◌≡◌, refl, inl, inr, arith, ℤ, pos, ◌≤ℤ◌, eq_ℤ, eq_ℤ_iff, Bool, List, [], ◌∷◌, true, false,
  ◌||◌, ◌&&◌, Option, none, some, All, All-head, All-tail, any, ◌==◌, is_some, if◌then◌else◌,
  Bool-cases, Text,
}
use expense.Store.Rows.{Transaction, ApprovalRule}
use expense.Store.World.{Db, UserInfo, failure}
use expense.Store.Hoare.{Triple, Yields, bind, weaken, run_rule, raise_rule, pure_rule, ask_rule}
use expense.Store.Approvals.{create_approval}
use expense.Authz.{Actor}
use expense.Approval.Submit.{or_failure, member_role, approval_for, create_one, create_approvals}
use expense.Approval.Chain.{IsValid, is_open}
use expense.Approval.Chain.Opening.{Opening, added-Opening, added_open, still_open, opening_done}

-- While rows are added, and, from the first active one on, with an approval to decide.
abbrev pub OpenIf : ℕ → ℤ → Bool → Db → Type 0
OpenIf tx first b d =
    Opening tx first d × (b ≡ true → any (is_open tx d.decisions) d.approvals ≡ true)

or_failure_rule :
    {A : Type 0} {P : Db → Type 0} (o : Option A) → Triple P (or_failure o) (λ _ d. P d)
or_failure_rule none = raise_rule failure
or_failure_rule (some a) = weaken (pure_rule a) (λ _ d h. h.0)

member_role_rule : {P : Db → Type 0} (org user : ℕ) → Triple P (member_role org user) (λ _ d. P d)
unfolding member_role
member_role_rule org user = bind (ask_rule _) (λ answer. or_failure_rule answer)

added-Yields :
    (t : Transaction) (users : List UserInfo) (first : ℤ) (time : ℕ) (role : Text)
    (r : ApprovalRule) (b : Bool) (now : ℕ) (d : Db)
    → pos 1 ≤ℤ r.step
    → first ≤ℤ r.step
    → OpenIf t.id first b d
    → Yields
        (λ _ e. OpenIf t.id first (b || eq_ℤ r.step first) e)
        (create_approval (approval_for t users first time role r) now d)
unfolding create_approval
added-Yields t users first time role r b now d positive later h =
    let p = approval_for t users first time role r in
    let at_first : is_some p.activated_at ≡ true → p.step ≡ first =
      λ active. (eq_ℤ_iff r.step first).0 (ground arith) in
    elim (Bool-cases
      (any (λ a. a.transaction_id == t.id && a.approver_id == r.approver_id) d.approvals)) [
        | inl e ↦ rw e tt
        | inr e ↦ rw e (
          added-Opening t.id now first d p h.0 refl positive later at_first,
          λ live. elim (Bool-cases (eq_ℤ r.step first)) [
            | inl f ↦ added_open t.id now first d p h.0 refl positive later at_first (ground arith)
            | inr f ↦
                still_open t.id now first d p h.0 refl positive later at_first (h.1 (ground arith))
          ],
        )
      ]

create_one_rule :
    (actor : Actor) (t : Transaction) (users : List UserInfo) (first : ℤ) (r : ApprovalRule)
    (b : Bool)
    → pos 1 ≤ℤ r.step
    → first ≤ℤ r.step
    → Triple
        (OpenIf t.id first b)
        (create_one actor t users first r)
        (λ _ d. OpenIf t.id first (b || eq_ℤ r.step first) d)
unfolding create_one
create_one_rule actor t users first r b positive later = bind (ask_rule _) (λ time.
    bind (member_role_rule actor.org_id r.approver_id) (λ role.
      run_rule (create_approval (approval_for t users first time role r))
        (λ now d h. added-Yields t users first time role r b now d positive later h)))

create_approvals_rule :
    (actor : Actor) (t : Transaction) (users : List UserInfo) (first : ℤ) (approver : ℕ)
    (rs : List ApprovalRule)
    → All (λ r. (pos 1 ≤ℤ r.step) × (first ≤ℤ r.step)) rs
    → Triple
        (OpenIf t.id first true)
        (create_approvals actor t users first approver rs)
        (λ _ d. OpenIf t.id first true d)
unfolding create_approvals
create_approvals_rule actor t users first approver [] h = weaken (pure_rule approver) (λ _ d k. k.0)
create_approvals_rule actor t users first approver (r ∷ rs) h =
    bind (create_one_rule actor t users first r true (All-head h).0 (All-head h).1) (λ _.
      create_approvals_rule actor t users first
        (if eq_ℤ r.step first then r.approver_id else approver) rs (All-tail h))

-- From the first rule on there is an approval to decide.
pub every_approval_rule :
    (actor : Actor) (t : Transaction) (users : List UserInfo) (approver : ℕ) (r : ApprovalRule)
    (rs : List ApprovalRule)
    → pos 1 ≤ℤ r.step
    → All (λ x. (pos 1 ≤ℤ x.step) × (r.step ≤ℤ x.step)) rs
    → Triple
        (OpenIf t.id r.step false)
        (create_approvals actor t users r.step approver (r ∷ rs))
        (λ _ d. IsValid d)
unfolding create_approvals
every_approval_rule actor t users approver r rs positive h =
    bind
      (weaken (create_one_rule actor t users r.step r false positive (omega arith))
        (λ _ d k. (k.0, λ _. k.1 (ground arith))))
      (λ _.
        weaken
          (create_approvals_rule actor t users r.step
            (if eq_ℤ r.step r.step then r.approver_id else approver) rs h)
          (λ _ d k. opening_done t.id d k.0.chains (k.1 refl)))
