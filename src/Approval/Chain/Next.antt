-- ===== src/Approval/Chain/Next.antt =====
-- What the loop of `activateNext` finds.
use expense.Base.{
  ◌≡◌, inl, ◌⊎◌, arith, ℤ, pos, negsuc, ◌≤ℤ◌, eq_ℤ, Bool, true, false, ◌&&◌, some, List, [], ◌∷◌,
  All, any, is_none, All-head, All-tail,
}
use expense.Store.Rows.{Approval, ApprovalDecision}
use expense.Approval.Decide.{advance, is_owing, find_next_step}

-- An approval whose turn has not come.
abbrev pub is_idle : Approval → Bool
is_idle a = is_none a.cancelled_at && is_none a.activated_at

-- From `next` the loop ends at `s`: nothing owes a decision, and `s` is the least step of the idle
-- approvals, or `next` where that is less.
pub record NextStep (ds : List ApprovalDecision) (next s : ℤ) (approvals : List Approval)
    : Type 0 where
  pub none_owing : All (λ a. is_owing ds a ≡ false) approvals
  pub least : All (λ a. is_idle a ≡ true → (pos 1 ≤ℤ s) × (s ≤ℤ a.step)) approvals
  pub below : pos 1 ≤ℤ next → (pos 1 ≤ℤ s) × (s ≤ℤ next)
  pub reached : (s ≡ next) ⊎ (any (λ a. is_idle a && eq_ℤ a.step s) approvals ≡ true)

pub find_next_step-NextStep :
    (ds : List ApprovalDecision) (next s : ℤ) (approvals : List Approval)
    → All (λ a. pos 1 ≤ℤ a.step) approvals
    → (next ≡ negsuc 0) ⊎ (pos 1 ≤ℤ next)
    → find_next_step ds next approvals ≡ some s
    → NextStep ds next s approvals
unfolding find_next_step
find_next_step-NextStep ds next s [] steps start e = record {
  none_owing = All.none;
  least = All.none;
  below = λ h. ground arith;
  reached = inl (ground arith);
}
find_next_step-NextStep ds next s (a ∷ others) steps start e =
    let step : pos 1 ≤ℤ a.step = All-head steps in
    let n : NextStep ds (advance next a) s others =
      find_next_step-NextStep ds (advance next a) s others (All-tail steps) (ground arith)
        (ground arith) in
    record {
      none_owing = All.also (ground arith) n.none_owing;
      least = All.also (λ idle. ground (arith, n.below)) n.least;
      below = λ h. ground (arith, n.below);
      reached = ground (arith, n.reached);
    }
