-- ===== src/Staff/Held.antt =====
-- A member's role is a live role of the member's project.
use expense.Base.{
  ℕ, ◌≡◌, ◌∙◌, refl, inl, inr, arith, true, false, not, ◌==◌, List, [], ◌∷◌, Text, All, All-map,
  All-filter, All-snoc, All-update, any, any-append, any-update, count, Bool-cases, All-pair,
}
use expense.Store.Rows.{Role, ProjectMember}
use expense.Store.World.{Db}
use expense.Store.Roles.{
  NewRole, is_role, role_row, add_role_permission, create_role, delete_role_permissions,
  soft_delete_role, update_role_name,
}
use expense.Store.Projects.{
  Placement, is_placed, is_of_user, member_row, moved, archive_project, unarchive_project,
  update_project_name, create_project, delete_project_member,
  delete_project_members_for_organization_user, soft_delete_project, upsert_project_member,
}
use expense.Store.Rules.{create_default_approval_rule}
use expense.Store.Outbox.{create_outbox_event}
use expense.Staff.Cases.{
  renamed, create_role-cases, update_role_name-cases, upsert_project_member-cases,
}
use expense.Staff.Kept.{StaffKept, Unused}
use expense.Staff.Requests.{StaffReachable, reachable-Keeps}

-- The member's role is a live role of the project that the member is placed in.
abbrev pub IsHeld : List Role → ProjectMember → Type 0
IsHeld roles m = any (is_role m.role_id m.project_id) roles ≡ true

abbrev pub HasHeldRoles : Db → Type 0
HasHeldRoles d = All (IsHeld d.roles) d.members

used_nowhere :
    (id : ℕ) (members : List ProjectMember)
    → count (λ (m : ProjectMember). m.role_id == id) members ≡ 0
    → All (λ (m : ProjectMember). (m.role_id == id) ≡ false) members
used_nowhere id [] h = All.none
used_nowhere id (m ∷ ms) h = elim (Bool-cases (m.role_id == id)) [
  | inl e ↦ absurd (ground (arith, e))
  | inr e ↦ All.also e (used_nowhere id ms (ground (arith, e)))
]

kept_by_create :
    (p : NewRole) (now : ℕ) (d : Db) → HasHeldRoles d → HasHeldRoles (create_role p now d).1
kept_by_create p now d h = create_role-cases HasHeldRoles now d p h (λ _.
    All-map d.members
      (λ m k.
        any-append (is_role m.role_id m.project_id) d.roles (role_row now d.next_id p ∷ [])
        ∙ ground (arith, k))
      h)

kept_by_rename :
    (id project : ℕ) (name : Text) (now : ℕ) (d : Db)
    → HasHeldRoles d
    → HasHeldRoles (update_role_name id project name now d).1
kept_by_rename id project name now d h =
    update_role_name-cases HasHeldRoles now d id project name h (λ _.
      All-map d.members
        (λ m k.
          any-update (is_role m.role_id m.project_id) (is_role id project) (renamed now name)
            d.roles (λ x t. refl)
          ∙ k)
        h)

kept_by_delete :
    (id project now : ℕ) (d : Db)
    → Unused id d
    → HasHeldRoles d
    → HasHeldRoles (soft_delete_role id project now d).1
unfolding soft_delete_role
kept_by_delete id project now d u h =
    All-map d.members
      (λ m k.
        any-update (is_role m.role_id m.project_id) (is_role id project) _ d.roles
          (λ x e. ground (arith, e, k.1))
        ∙ k.0)
      (All-pair d.members h (used_nowhere id d.members u))

kept_by_place :
    (p : Placement) (now : ℕ) (d : Db)
    → any (is_role p.role_id p.project_id) d.roles ≡ true
    → HasHeldRoles d
    → HasHeldRoles (upsert_project_member p now d).1
kept_by_place p now d r h =
    upsert_project_member-cases HasHeldRoles now d p h
      (λ _. All-snoc d.members (member_row now p) h r)
      (λ m _ _.
        All-update (is_placed p.project_id p.user_id) (moved now p.role_id) d.members
          (λ m t k. let same : m.project_id ≡ p.project_id = ground (arith, t) in rw same r)
          (λ m t k. k) h)

held-kept : StaffKept HasHeldRoles
unfolding add_role_permission delete_role_permissions create_default_approval_rule
    create_outbox_event create_project update_project_name archive_project unarchive_project
    soft_delete_project delete_project_member delete_project_members_for_organization_user
held-kept = record {
  role_created = kept_by_create;
  permission_added = λ role a now d h. ground (arith, h);
  permissions_deleted = λ role now d h. h;
  role_renamed = λ id project name now d _ h. kept_by_rename id project name now d h;
  role_deleted = λ id project now d _ u h. kept_by_delete id project now d u h;
  rule_created = λ org user now d h. ground (arith, h);
  emitted = λ kind aggregate topic payload now d h. h;
  project_created = λ org name user now d h. ground (arith, h);
  project_renamed = λ id org name now d h. ground (arith, h);
  archived = λ id org now d h. ground (arith, h);
  unarchived = λ id org now d h. ground (arith, h);
  project_deleted = λ id org now d h. h;
  placed = λ p now d r h. kept_by_place p now d r h;
  removed = λ project user now d h. All-filter (λ m. not (is_placed project user m)) d.members h;
  cleared = λ org user now d h. All-filter (λ m. not (is_of_user org user m)) d.members h;
}

-- Every placement holds a live role of its project, in every database that requests on projects,
-- placements and roles reach from one where it is so, taken one after the other, whatever fails in
-- them.
pub reachable-HasHeldRoles :
    {start d : Db} → StaffReachable start d → HasHeldRoles start → HasHeldRoles d
reachable-HasHeldRoles r h = reachable-Keeps held-kept r h
