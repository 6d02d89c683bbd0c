-- ===== src/Projects.antt =====
-- internal/service/project/service.go: the projects of an organization and who is placed in them.
use expense.Base.{
  ℕ, Bool, true, false, not, Option, none, some, List, [], ◌∷◌, Text, codes, length, ltb, is_some,
  map, if◌then◌else◌,
}
use expense.Store.Rows.{Project, ProjectMember, Role, Topic, Payload}
use expense.Store.World.{
  Env, World, Error, Result, ok, err, forbidden, is_forbidden, not_found, project_archived,
  project_has_transactions, project_has_documents, project_member_changed,
  project_member_not_active, M, pure, raise, raise_if, ◌>>=◌, ◌>>◌, run, map_error, exec_tx,
}
use expense.Store.Projects.{
  archive_project, unarchive_project, update_project_name, count_project_documents,
  count_project_transactions, create_project, delete_project_member,
  delete_project_members_for_organization_user, get_project, list_placed_projects, list_projects,
  list_project_members, lock_project_for_delete, soft_delete_project, upsert_project_member,
  PlacedMember, Placement,
}
use expense.Store.Roles.{NewRole, add_role_permission, create_role, get_role, get_role_by_name}
use expense.Store.Rules.{create_default_approval_rule}
use expense.Store.Outbox.{emit}
use expense.Authz.{Actor, check_admin, is_placed_in_project, is_member_active_strict}
use expense.Approval.Submit.{or_not_found}
use expense.Roles.{Seeds, add_permissions}
pub mod Members
pub mod Placing
pub mod Outcomes

-- The Project and the Member of model.go.
pub record ProjectView : Type 0 where
  pub id : ℕ
  pub name : Text
  pub created_by : ℕ
  pub created_at : ℕ
  pub archived : Bool

pub record MemberView : Type 0 where
  pub user_id : ℕ
  pub role_id : ℕ
  pub role_name : Text
  pub is_system : Bool
  pub created_at : ℕ
  pub version : ℕ

abbrev pub to_project : Project → ProjectView
to_project p = record {
  id = p.id;
  name = p.name;
  created_by = p.created_by;
  created_at = p.created_at;
  archived = is_some p.archived_at;
}

-- The system roles of a new project, in any order.
unfoldable pub make_roles : Actor → (project_id : ℕ) → Seeds → M (Unit {0})
unfolding add_permissions
make_roles actor project [] = pure tt
make_roles actor project ((name, actions) ∷ seeds) =
    (do
      r ← run (
          create_role (record {
            project_id = project;
            name = name;
            is_system = true;
            created_by = actor.user_id;
          }))
      add_permissions r.id actions)
    >> make_roles actor project seeds

-- The creator is placed as an admin of the project.
unfoldable pub place_creator : Actor → (project_id : ℕ) → M (Unit {0})
place_creator actor project = do
  admin ← run (get_role_by_name project (codes "admin"))
  run (
      upsert_project_member (record {
        organization_id = actor.org_id;
        project_id = project;
        user_id = actor.user_id;
        role_id = admin.id;
        expected_version = none;
      }))
  pure tt

unfoldable pub create_body : Actor → (name : Text) → Seeds → M Project
unfolding make_roles place_creator
create_body actor name seeds = do
  p ← run (create_project actor.org_id name actor.user_id)
  make_roles actor p.id seeds
  run (create_default_approval_rule actor.org_id actor.user_id)
  place_creator actor p.id
  emit (codes "project") p.id Topic.audit (Payload.project_created actor.org_id p.id actor.user_id)
  pure p

unfoldable pub create : Actor → (name : Text) → Seeds → M ProjectView
unfolding create_body
create actor name seeds = do
  created ← exec_tx (create_body actor name seeds)
  pure (to_project created)

-- ErrForbidden of CheckAdmin is `false`, another error stays one.
abbrev pub as_answer : Result (Unit {0}) × World → Result Bool × World
as_answer (ok _, w) = (ok true, w)
as_answer (err e, w) = (if is_forbidden e then ok false else err e, w)

unfoldable pub is_admin : Actor → M Bool
is_admin actor env w = as_answer (check_admin actor env w)

unfoldable pub check_placed : Actor → (project_id : ℕ) → M (Unit {0})
check_placed actor project = do
  placed ← is_placed_in_project actor project
  raise_if (not placed) forbidden

unfoldable pub find_project : Actor → (id : ℕ) → M Project
find_project actor id = map_error or_not_found (run (get_project id actor.org_id))

abbrev unless : Bool → M (Unit {0}) → M (Unit {0})
unless true m = pure tt
unless false m = m

unfoldable pub get : Actor → (id : ℕ) → M ProjectView
unfolding is_admin check_placed find_project
get actor id = do
  admin ← is_admin actor
  unless admin (check_placed actor id)
  p ← find_project actor id
  pure (to_project p)

abbrev projects_for : Actor → Bool → (include_archived : Bool) (limit offset : ℕ) → M (List Project)
projects_for actor true archived limit offset =
    run (list_projects actor.org_id archived limit offset)
projects_for actor false archived limit offset =
    run (list_placed_projects actor.org_id actor.user_id archived limit offset)

unfoldable pub list : Actor → (include_archived : Bool) (limit offset : ℕ) → M (List ProjectView)
unfolding is_admin
list actor archived limit offset = do
  admin ← is_admin actor
  rows ← projects_for actor admin archived limit offset
  pure (map to_project rows)

unfoldable pub update_body : Actor → (id : ℕ) (name : Text) → M Project
update_body actor id name = do
  p ← run (update_project_name id actor.org_id name)
  emit (codes "project") id Topic.audit (Payload.project_updated actor.org_id id actor.user_id)
  pure p

unfoldable pub update : Actor → (id : ℕ) (name : Text) → M ProjectView
unfolding update_body
update actor id name = do
  p ← map_error or_not_found (exec_tx (update_body actor id name))
  pure (to_project p)

unfoldable pub delete_body : Actor → (id : ℕ) → M (Unit {0})
delete_body actor id = do
  run (lock_project_for_delete id actor.org_id)
  transactions ← run (count_project_transactions id)
  raise_if (ltb 0 transactions) project_has_transactions
  documents ← run (count_project_documents id)
  raise_if (ltb 0 documents) project_has_documents
  rows ← run (soft_delete_project id actor.org_id)
  raise_if (not (ltb 0 rows)) not_found
  emit (codes "project") id Topic.audit (Payload.project_deleted actor.org_id id actor.user_id)

unfoldable pub delete : Actor → (id : ℕ) → M (Unit {0})
unfolding delete_body
delete actor id = map_error or_not_found (exec_tx (delete_body actor id))

unfoldable pub archive_body : Actor → (id : ℕ) → M Project
archive_body actor id = do
  p ← run (archive_project id actor.org_id)
  emit (codes "project") id Topic.audit (Payload.project_archived actor.org_id id actor.user_id)
  pure p

unfoldable pub archive : Actor → (id : ℕ) → M ProjectView
unfolding archive_body
archive actor id = do
  p ← map_error or_not_found (exec_tx (archive_body actor id))
  pure (to_project p)

unfoldable pub unarchive_body : Actor → (id : ℕ) → M Project
unarchive_body actor id = do
  p ← run (unarchive_project id actor.org_id)
  emit (codes "project") id Topic.audit (Payload.project_unarchived actor.org_id id actor.user_id)
  pure p

unfoldable pub unarchive : Actor → (id : ℕ) → M ProjectView
unfolding unarchive_body
unarchive actor id = do
  p ← map_error or_not_found (exec_tx (unarchive_body actor id))
  pure (to_project p)
