-- ===== src/Approval/LastRule.antt =====
-- The deletion of a rule where another default rule is left, or the rule is a project's.
use expense.Base.{
  ℕ, ◌≤◌, ◌<◌, ◌≡◌, ◌⊎◌, refl, inl, inr, arith, true, false, Bool, Option, none, some, List, [],
  ◌∷◌, ◌==◌, find, any, count, update, is_none, All, All-head, All-tail, All-every, All-map,
  All-update, Pairwise, Pairwise-update, Bool-cases, subst, sym,
}
use expense.Store.Rows.{ApprovalRule}
use expense.Store.World.{Db}
use expense.Store.Rules.{same_project, in_scope, is_rule, soft_delete_approval_rule}

-- Rules have ids of their own, given before, and the organization has a rule that stands for every
-- project without rules.
pub record HasDefault (org : ℕ) (d : Db) : Type 0 where
  pub ids : Pairwise (λ (r x : ApprovalRule). (r.id == x.id) ≡ false) d.rules
  pub fresh : All (λ (r : ApprovalRule). r.id < d.next_id) d.rules
  pub left : any (in_scope org none) d.rules ≡ true

-- The rule can go: it is a project's, or another default rule is left.
abbrev pub MayGo : (id org : ℕ) → Db → Type 0
MayGo id org d =
    (r : ApprovalRule) × (find (is_rule id org) d.rules ≡ some r)
    × ((is_none r.project_id ≡ false) ⊎ (2 ≤ count (in_scope org none) d.rules))

module _ (p q : ApprovalRule → Bool) (f : ApprovalRule → ApprovalRule) where
  any-update_aside :
      (rs : List ApprovalRule)
      → All (λ r. p r ≡ true → q r ≡ false) rs
      → any q rs ≡ true
      → any q (update p f rs) ≡ true
  any-update_aside [] h e = e
  any-update_aside (r ∷ rs) h e = ground (arith, e, All-head h, any-update_aside rs (All-tail h))

any-count : (q : ApprovalRule → Bool) (rs : List ApprovalRule) → 1 ≤ count q rs → any q rs ≡ true
any-count q [] h = absurd (omega (arith, h))
any-count q (r ∷ rs) h = ground (arith, h, any-count q rs)

module _ (id org : ℕ) where
  others_miss :
      (r : ApprovalRule) (rs : List ApprovalRule)
      → is_rule id org r ≡ true
      → All (λ (x : ApprovalRule). (r.id == x.id) ≡ false) rs
      → All (λ x. is_rule id org x ≡ false) rs
  others_miss r rs e h = All-map rs (λ x k. ground (arith, e, k)) h

  -- One row at most is hit, so that one of two default rules is left.
  one_left :
      (f : ApprovalRule → ApprovalRule) (q : ApprovalRule → Bool) (rs : List ApprovalRule)
      → Pairwise (λ (r x : ApprovalRule). (r.id == x.id) ≡ false) rs
      → 2 ≤ count q rs
      → any q (update (is_rule id org) f rs) ≡ true
  one_left f q [] h c = absurd (omega (arith, c))
  one_left f q (r ∷ rs) (Pairwise.also h t) c = elim (Bool-cases (is_rule id org r)) [
    | inl e ↦
        let more : 1 ≤ count q rs = ground (arith, c) in
        ground (
          arith,
          e,
          any-update_aside (is_rule id org) q f rs
              (All-map rs (λ x miss hit. absurd (cc (miss, hit))) (others_miss r rs e h))
              (any-count q rs more),
        )
    | inr e ↦ ground (arith, e, c, one_left f q rs t)
  ]

  -- All rows that are hit are the one that a search finds.
  hit_is_found :
      (q : ApprovalRule → Bool) (rs : List ApprovalRule) (r : ApprovalRule)
      → Pairwise (λ (r x : ApprovalRule). (r.id == x.id) ≡ false) rs
      → find (is_rule id org) rs ≡ some r
      → q r ≡ false
      → All (λ x. is_rule id org x ≡ true → q x ≡ false) rs
  hit_is_found q [] r h e g = All.none
  hit_is_found q (x ∷ xs) r (Pairwise.also h t) e g = elim (Bool-cases (is_rule id org x)) [
    | inl k ↦
        let same : x ≡ r = ground (arith, k, e) in
        All.also (λ hit. subst (λ y. q y ≡ false) (sym same) g)
          (All-map xs (λ y miss hit. absurd (cc (miss, hit))) (others_miss x xs k h))
    | inr k ↦
        All.also (λ hit. absurd (cc (k, hit))) (hit_is_found q xs r t (ground (arith, k, e)) g)
  ]

not_default : (project : Option ℕ) → is_none project ≡ false → same_project project none ≡ false
not_default none k = cc
not_default (some p) k = refl

of_project :
    (org : ℕ) (x : ApprovalRule) → is_none x.project_id ≡ false → in_scope org none x ≡ false
of_project org x k = ground (arith, not_default x.project_id k)

pub soft_deleted :
    (id org other now : ℕ) (d : Db)
    → HasDefault org d
    → MayGo id other d
    → HasDefault org (soft_delete_approval_rule id other now d).1
unfolding soft_delete_approval_rule
soft_deleted id org other now d h (r, found, may) =
    let change = λ (x : ApprovalRule). record x { deleted_at = some now; updated_at = now } in
    record {
      ids =
          Pairwise-update {P = λ _. Unit {0}} (is_rule id other) change d.rules
            (λ a b _ _ k. ground (arith, k)) (All-every d.rules (λ _. tt)) h.ids;
      fresh = All-update (is_rule id other) change d.rules (λ x _ k. k) (λ x _ k. k) h.fresh;
      left = elim (Bool-cases (org == other)) [
        | inr e ↦
            any-update_aside (is_rule id other) (in_scope org none) change d.rules
              (All-every d.rules (λ x hit. ground (arith, e, hit))) h.left
        | inl e ↦
            let here : org ≡ other = ground (arith, e) in
            elim may [
              | inl project ↦
                  any-update_aside (is_rule id other) (in_scope org none) change d.rules
                    (hit_is_found id other (in_scope org none) d.rules r h.ids found
                      (of_project org r project))
                    h.left
              | inr two ↦
                  one_left id other change (in_scope org none) d.rules h.ids
                    (subst (λ o. 2 ≤ count (in_scope o none) d.rules) (sym here) two)
            ]
      ];
    }
