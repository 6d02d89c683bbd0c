-- ===== src/Staff/Placements.antt =====
-- A user is placed in a project once.
use expense.Base.{
  ℕ, ◌≡◌, arith, false, not, ◌==◌, ◌&&◌, List, All-map, All-every, Pairwise, Pairwise-snoc,
  Pairwise-filter, Pairwise-update, All-of_find_none,
}
use expense.Store.Rows.{ProjectMember}
use expense.Store.World.{Db}
use expense.Store.Roles.{add_role_permission, delete_role_permissions, soft_delete_role}
use expense.Store.Projects.{
  Placement, is_placed, is_of_user, member_row, moved, archive_project, unarchive_project,
  update_project_name, create_project, delete_project_member,
  delete_project_members_for_organization_user, soft_delete_project, upsert_project_member,
}
use expense.Store.Rules.{create_default_approval_rule}
use expense.Store.Outbox.{create_outbox_event}
use expense.Staff.Cases.{create_role-cases, update_role_name-cases, upsert_project_member-cases}
use expense.Staff.Kept.{StaffKept}
use expense.Staff.Requests.{StaffReachable, reachable-Keeps}

-- No two placements are of one user in one project.
abbrev pub ArePlacedOnce : List ProjectMember → Type 0
ArePlacedOnce members =
    Pairwise
      (λ (m x : ProjectMember). (x.project_id == m.project_id && x.user_id == m.user_id) ≡ false)
      members

abbrev pub IsPlacedOnce : Db → Type 0
IsPlacedOnce d = ArePlacedOnce d.members

once_by_place :
    (p : Placement) (now : ℕ) (d : Db)
    → IsPlacedOnce d
    → IsPlacedOnce (upsert_project_member p now d).1
once_by_place p now d h =
    upsert_project_member-cases IsPlacedOnce now d p h
      (λ e. Pairwise-snoc d.members (member_row now p) h (
        All-map d.members (λ m k. ground (arith, k))
          (All-of_find_none (is_placed p.project_id p.user_id) d.members e)))
      (λ m _ _.
        Pairwise-update {P = λ _. Unit {0}} (is_placed p.project_id p.user_id) (moved now p.role_id)
          d.members (λ x y _ _ k. ground (arith, k)) (All-every d.members (λ _. tt)) h)

once-kept : StaffKept IsPlacedOnce
unfolding add_role_permission delete_role_permissions create_default_approval_rule
    create_outbox_event create_project update_project_name archive_project unarchive_project
    soft_delete_project delete_project_member delete_project_members_for_organization_user
    soft_delete_role
once-kept = record {
  role_created = λ p now d h. create_role-cases IsPlacedOnce now d p h (λ _. h);
  permission_added = λ role a now d h. ground (arith, h);
  permissions_deleted = λ role now d h. h;
  role_renamed = λ id project name now d _ h.
      update_role_name-cases IsPlacedOnce now d id project name h (λ _. h);
  role_deleted = λ id project now d _ _ h. h;
  rule_created = λ org user now d h. ground (arith, h);
  emitted = λ kind aggregate topic payload now d h. h;
  project_created = λ org name user now d h. ground (arith, h);
  project_renamed = λ id org name now d h. ground (arith, h);
  archived = λ id org now d h. ground (arith, h);
  unarchived = λ id org now d h. ground (arith, h);
  project_deleted = λ id org now d h. h;
  placed = λ p now d _ h. once_by_place p now d h;
  removed =
      λ project user now d h. Pairwise-filter (λ m. not (is_placed project user m)) d.members h;
  cleared = λ org user now d h. Pairwise-filter (λ m. not (is_of_user org user m)) d.members h;
}

-- No user has two placements in one project, in every database that requests on projects,
-- placements and roles reach from one where it is so, whatever fails in them.
pub reachable-IsPlacedOnce :
    {start d : Db} → StaffReachable start d → IsPlacedOnce start → IsPlacedOnce d
reachable-IsPlacedOnce r h = reachable-Keeps once-kept r h
