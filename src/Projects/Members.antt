-- ===== src/Projects/Members.antt =====
-- internal/service/project/service.go: the placements of an organization's users in its projects.
use expense.Base.{ℕ, not, Option, List, [], ◌∷◌, codes, length, ltb, is_some, map}
use expense.Store.Rows.{ProjectMember, Role, Topic, Payload}
use expense.Store.World.{
  World, Error, Result, ok, err, not_found, project_archived, project_member_changed,
  project_member_not_active, M, pure, raise_if, ◌>>=◌, ◌>>◌, run, map_error, exec_tx,
}
use expense.Store.Projects.{
  delete_project_member, delete_project_members_for_organization_user, list_project_members,
  lock_project_for_delete, upsert_project_member, PlacedMember, Placement,
}
use expense.Store.Roles.{get_role}
use expense.Store.Outbox.{emit}
use expense.Authz.{Actor, check_admin, is_member_active_strict}
use expense.Approval.Submit.{or_not_found}
use expense.Projects.{find_project, check_placed, MemberView}

pub record PlaceMemberInput : Type 0 where
  pub user_id : ℕ
  pub role_id : ℕ
  pub expected_version : Option ℕ

-- The checks before the database transaction, which give the role.
unfoldable pub check_place : Actor → (project_id : ℕ) → PlaceMemberInput → M Role
unfolding find_project
check_place actor project input = do
  p ← find_project actor project
  raise_if (is_some p.archived_at) project_archived
  active ← is_member_active_strict actor input.user_id
  raise_if (not active) project_member_not_active
  map_error or_not_found (run (get_role input.role_id project))

abbrev pub or_member_changed : Error → Error
or_member_changed Error.no_rows = project_member_changed
or_member_changed e = e

abbrev pub placement_of : Actor → (project_id : ℕ) → PlaceMemberInput → Placement
placement_of actor project input = record {
  organization_id = actor.org_id;
  project_id = project;
  user_id = input.user_id;
  role_id = input.role_id;
  expected_version = input.expected_version;
}

unfoldable pub place_body : Actor → (project_id : ℕ) → PlaceMemberInput → M ProjectMember
place_body actor project input = do
  locked ← run (lock_project_for_delete project actor.org_id)
  raise_if (is_some locked.archived_at) project_archived
  m ← map_error or_member_changed (run (upsert_project_member (placement_of actor project input)))
  emit (codes "project_member") project Topic.audit
      (Payload.project_member_placed actor.org_id project input.user_id input.role_id actor.user_id)
  pure m

abbrev pub placed_view : Role → ProjectMember → MemberView
placed_view role m = record {
  user_id = m.user_id;
  role_id = m.role_id;
  role_name = role.name;
  is_system = role.is_system;
  created_at = m.created_at;
  version = m.version;
}

unfoldable pub place_member : Actor → (project_id : ℕ) → PlaceMemberInput → M MemberView
unfolding check_place place_body
place_member actor project input = do
  role ← check_place actor project input
  m ← map_error or_not_found (exec_tx (place_body actor project input))
  pure (placed_view role m)

unfoldable pub remove_body : Actor → (project_id user_id : ℕ) → M (Unit {0})
remove_body actor project user = do
  run (lock_project_for_delete project actor.org_id)
  rows ← run (delete_project_member project user)
  raise_if (not (ltb 0 rows)) not_found
  emit (codes "project_member") project Topic.audit
      (Payload.project_member_removed actor.org_id project user actor.user_id [])

unfoldable pub remove_member : Actor → (project_id user_id : ℕ) → M (Unit {0})
unfolding remove_body
remove_member actor project user = map_error or_not_found (exec_tx (remove_body actor project user))

-- The event's actor is the user, whose acceptance of an invitation triggers the call.
unfoldable pub announce_removals :
    (organization_id user_id : ℕ) → (project_ids : List ℕ) → M (Unit {0})
announce_removals org user [] = pure tt
announce_removals org user (project ∷ projects) =
    emit (codes "project_member") project Topic.audit (
      Payload.project_member_removed org project user user
        (codes "organization_membership_reactivated"))
    >> announce_removals org user projects

unfoldable pub clear_body : Actor → (user_id : ℕ) → M (List ℕ)
unfolding announce_removals
clear_body actor user = do
  projects ← run (delete_project_members_for_organization_user actor.org_id user)
  announce_removals actor.org_id user projects
  pure projects

unfoldable pub clear_organization_member_placements : Actor → (user_id : ℕ) → M ℕ
unfolding clear_body
clear_organization_member_placements actor user = do
  projects ← exec_tx (clear_body actor user)
  pure (length projects)

-- Any error of CheckAdmin asks for a placement.
abbrev pub or_placed : Actor → (project_id : ℕ) → Result (Unit {0}) × World → M (Unit {0})
or_placed actor project (ok _, w) env _ = (ok tt, w)
or_placed actor project (err e, w) env _ = check_placed actor project env w

unfoldable pub check_may_list : Actor → (project_id : ℕ) → M (Unit {0})
unfolding check_placed
check_may_list actor project env w = or_placed actor project (check_admin actor env w) env w

abbrev pub to_member : PlacedMember → MemberView
to_member x = placed_view x.role x.member

unfoldable pub list_members : Actor → (project_id : ℕ) → M (List MemberView)
unfolding check_may_list
list_members actor project = do
  check_may_list actor project
  rows ← run (list_project_members project)
  pure (map to_member rows)
