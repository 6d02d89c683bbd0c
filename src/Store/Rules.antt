-- ===== src/Store/Rules.antt =====
-- The statements of internal/repository/approval_rules.sql.go.
use expense.Base.{
  ℕ, suc, Bool, true, false, not, ◌&&◌, ◌||◌, Option, none, some, List, [], ◌∷◌, ◌++◌, ℤ, pos,
  ltb_ℤ, leb_ℤ, eq_ℤ, ltb, filter, find, any, count, update, sort_by, is_none, if◌then◌else◌, ◌==◌,
}
use expense.Store.Rows.{ApprovalRule}
use expense.Store.World.{ok, err, no_rows, unique_violation, failure, one, Statement}

-- `project_id = $n`, and `project_id IS NULL` for a rule of the whole organization.
abbrev pub same_project : Option ℕ → Option ℕ → Bool
same_project none none = true
same_project none (some _) = false
same_project (some _) none = false
same_project (some p) (some q) = p == q

abbrev pub is_live : ApprovalRule → Bool
is_live r = is_none r.deleted_at

-- What the unique indexes `ux_approval_rules_project_approver` and
-- `ux_approval_rules_default_approver` tell live rules apart by.
abbrev pub has_key : (organization_id : ℕ) → Option ℕ → (approver_id : ℕ) → ApprovalRule → Bool
has_key org project approver r =
    r.organization_id == org
    && same_project r.project_id project
    && r.approver_id == approver
    && is_live r

-- `ck_approval_rules_step`.
abbrev pub step_in_range : ℤ → Bool
step_in_range s = leb_ℤ (pos 1) s && leb_ℤ s (pos 10)

-- CreateApprovalRuleParams.
pub record NewRule : Type 0 where
  pub organization_id : ℕ
  pub project_id : Option ℕ
  pub approver_id : ℕ
  pub step : ℤ
  pub created_by : ℕ

abbrev pub rule_row : (now id : ℕ) → NewRule → ApprovalRule
rule_row now id p = record {
  id = id;
  organization_id = p.organization_id;
  project_id = p.project_id;
  approver_id = p.approver_id;
  step = p.step;
  created_by = p.created_by;
  created_at = now;
  updated_at = now;
  deleted_at = none;
}

unfoldable pub create_approval_rule : NewRule → Statement ApprovalRule
create_approval_rule p now d =
    if not (step_in_range p.step)
    then (err failure, d)
    else if any (has_key p.organization_id p.project_id p.approver_id) d.rules
    then (err unique_violation, d)
    else (
      ok (rule_row now d.next_id p),
      record d { rules = d.rules ++ rule_row now d.next_id p ∷ []; next_id = suc d.next_id },
    )

abbrev pub is_rule : (id organization_id : ℕ) → ApprovalRule → Bool
is_rule id org r = r.id == id && r.organization_id == org && is_live r

unfoldable pub get_approval_rule : (id organization_id : ℕ) → Statement ApprovalRule
get_approval_rule id org now d = (one (find (is_rule id org) d.rules), d)

-- ORDER BY step ASC, created_at ASC.
abbrev pub in_rule_order : ApprovalRule → ApprovalRule → Bool
in_rule_order a b = ltb_ℤ a.step b.step || (eq_ℤ a.step b.step && ltb a.created_at b.created_at)

abbrev pub in_scope : (organization_id : ℕ) → Option ℕ → ApprovalRule → Bool
in_scope org project r = r.organization_id == org && same_project r.project_id project && is_live r

-- ListApprovalRules: the rules of one project, or those of the whole organization.
unfoldable pub list_approval_rules :
    (organization_id : ℕ) → Option ℕ → Statement (List ApprovalRule)
list_approval_rules org project now d =
    (ok (sort_by in_rule_order (filter (in_scope org project) d.rules)), d)

unfoldable pub resolve_project_rules :
    (organization_id project_id : ℕ) → Statement (List ApprovalRule)
resolve_project_rules org project now d =
    (ok (sort_by in_rule_order (filter (in_scope org (some project)) d.rules)), d)

unfoldable pub resolve_default_rules : (organization_id : ℕ) → Statement (List ApprovalRule)
resolve_default_rules org now d =
    (ok (sort_by in_rule_order (filter (in_scope org none) d.rules)), d)

unfoldable pub update_approval_rule_step :
    (id organization_id : ℕ) (step : ℤ) → Statement ApprovalRule
update_approval_rule_step id org step now d =
    let change = λ (r : ApprovalRule). record r { step = step; updated_at = now } in
    elim (find (is_rule id org) d.rules) [
      | none ↦ (err no_rows, d)
      | some r ↦
          if step_in_range step
          then (ok (change r), record d { rules = update (is_rule id org) change d.rules })
          else (err failure, d)
    ]

unfoldable pub soft_delete_approval_rule : (id organization_id : ℕ) → Statement ℕ
soft_delete_approval_rule id org now d = (
  ok (count (is_rule id org) d.rules),
  record d {
    rules =
        update (is_rule id org) (λ r. record r { deleted_at = some now; updated_at = now }) d.rules;
  },
)

unfoldable pub count_default_org_rules : (organization_id : ℕ) → Statement ℕ
count_default_org_rules org now d = (ok (count (in_scope org none) d.rules), d)

abbrev pub is_rule_of : (organization_id approver_id : ℕ) → ApprovalRule → Bool
is_rule_of org approver r = r.organization_id == org && r.approver_id == approver && is_live r

unfoldable pub list_rules_by_approver :
    (organization_id approver_id : ℕ) → Statement (List ApprovalRule)
list_rules_by_approver org approver now d = (ok (filter (is_rule_of org approver) d.rules), d)

-- Two live rules with one key.
unfoldable pub has_duplicate : List ApprovalRule → Bool
has_duplicate [] = false
has_duplicate (r ∷ rs) =
    (is_live r && any (has_key r.organization_id r.project_id r.approver_id) rs) || has_duplicate rs

unfoldable pub reassign_approval_rules : (organization_id from_id to_id : ℕ) → Statement ℕ
unfolding has_duplicate
reassign_approval_rules org from to now d =
    let rules' =
      update (is_rule_of org from) (λ r. record r { approver_id = to; updated_at = now }) d.rules in
    if has_duplicate rules'
    then (err unique_violation, d)
    else (ok (count (is_rule_of org from) d.rules), record d { rules = rules' })

-- ON CONFLICT DO NOTHING.
unfoldable pub create_default_approval_rule :
    (organization_id approver_id : ℕ) → Statement (Unit {0})
create_default_approval_rule org approver now d =
    let row = rule_row now d.next_id (record {
      organization_id = org;
      project_id = none;
      approver_id = approver;
      step = pos 1;
      created_by = approver;
    }) in
    if any (has_key org none approver) d.rules
    then (ok tt, d)
    else (ok tt, record d { rules = d.rules ++ row ∷ []; next_id = suc d.next_id })
