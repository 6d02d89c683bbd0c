-- ===== src/Approval/Chain/Rules.antt =====
-- The rules that a chain is made from come in the order of their steps.
use expense.Base.{
  ◌≡◌, sym, subst, inl, inr, arith, pos, ◌≤ℤ◌, true, false, List, [], ◌∷◌, Option, All, filter,
  insert_by, sort_by, Bool-cases, All-map, All-insert_by, All-sort_by, All-filter, ℕ,
}
use expense.Store.Rows.{ApprovalRule}
use expense.Store.World.{Db}
use expense.Store.Rules.{in_rule_order, in_scope, step_in_range}

-- Every rule comes before the rules behind it.
data InSteps : List ApprovalRule → Type 0 where
  none : InSteps []
  also :
      {r : ApprovalRule} {rs : List ApprovalRule}
      → All (λ x. r.step ≤ℤ x.step) rs
      → InSteps rs
      → InSteps (r ∷ rs)

InSteps-insert_by :
    (r : ApprovalRule) (rs : List ApprovalRule)
    → InSteps rs
    → InSteps (insert_by in_rule_order r rs)
InSteps-insert_by r [] h = InSteps.also All.none InSteps.none
InSteps-insert_by r (x ∷ xs) (InSteps.also h t) = elim (Bool-cases (in_rule_order x r)) [
  | inl e ↦
      rw e (
        InSteps.also (All-insert_by in_rule_order r xs (ground arith) h) (InSteps-insert_by r xs t))
  | inr e ↦ rw e (
      InSteps.also (All.also (ground arith) (All-map xs (λ y k. before_all r x y e k) h))
        (InSteps.also h t))
]
  where
    before_all :
        (r x y : ApprovalRule) → in_rule_order x r ≡ false → x.step ≤ℤ y.step → r.step ≤ℤ y.step
    before_all r x y e k = ground arith

InSteps-sort_by : (rs : List ApprovalRule) → InSteps (sort_by in_rule_order rs)
InSteps-sort_by [] = InSteps.none
InSteps-sort_by (r ∷ rs) = InSteps-insert_by r (sort_by in_rule_order rs) (InSteps-sort_by rs)

pub least_first :
    {r : ApprovalRule} {rs : List ApprovalRule} (xs : List ApprovalRule)
    → r ∷ rs ≡ sort_by in_rule_order xs
    → All (λ x. r.step ≤ℤ x.step) rs
least_first {r} {rs} xs e = head_least (subst InSteps (sym e) (InSteps-sort_by xs))
  where
    head_least : InSteps (r ∷ rs) → All (λ x. r.step ≤ℤ x.step) rs
    head_least (InSteps.also h t) = h

-- The rules that `resolve_rules` finds in the tables have positive steps.
pub positive_steps :
    (d : Db) (org : ℕ) (project : Option ℕ)
    → All (λ r. step_in_range r.step ≡ true) d.rules
    → All (λ r. pos 1 ≤ℤ r.step) (sort_by in_rule_order (filter (in_scope org project) d.rules))
positive_steps d org project h = All-sort_by in_rule_order (filter (in_scope org project) d.rules) (
    All-map (filter (in_scope org project) d.rules) (λ r k. ground arith)
      (All-filter (in_scope org project) d.rules h))
