-- ===== src/Staff/Requests.antt =====
-- The requests on projects, placements and roles, in any order.
use expense.Base.{ℕ, Text}
use expense.Store.World.{Db, Env, World}
use expense.Authz.{Actor}
use expense.Roles.{Seeds, RoleInput, RoleChange, ensure_seed}
use expense.Roles
use expense.Projects
use expense.Projects.Members.{
  PlaceMemberInput, place_member, remove_member, clear_organization_member_placements,
}
use expense.Staff.Kept.{StaffKept}
use expense.Staff.RoleChanges
use expense.Staff.ProjectChanges
use expense.Staff.MemberChanges

-- One request with its actor; `Seeds` is the order in which the system roles are made.
pub data StaffRequest : Type 0 where
  seed : Seeds → (project_id : ℕ) → StaffRequest
  create_role : (project_id : ℕ) → RoleInput → StaffRequest
  update_role : (project_id id : ℕ) → RoleChange → StaffRequest
  delete_role : (project_id id : ℕ) → StaffRequest
  create_project : (name : Text) → Seeds → StaffRequest
  rename_project : (id : ℕ) (name : Text) → StaffRequest
  archive_project unarchive_project delete_project : (id : ℕ) → StaffRequest
  place : (project_id : ℕ) → PlaceMemberInput → StaffRequest
  remove : (project_id user_id : ℕ) → StaffRequest
  clear : (user_id : ℕ) → StaffRequest

unfoldable pub after_staff : Actor → StaffRequest → Env → World → Db
after_staff a (seed seeds project) env w = (ensure_seed a project seeds env w).1.db
after_staff a (create_role project input) env w = (Roles.create a project input env w).1.db
after_staff a (update_role project id change) env w = (Roles.update a project id change env w).1.db
after_staff a (delete_role project id) env w = (Roles.delete a project id env w).1.db
after_staff a (create_project name seeds) env w = (Projects.create a name seeds env w).1.db
after_staff a (rename_project id name) env w = (Projects.update a id name env w).1.db
after_staff a (archive_project id) env w = (Projects.archive a id env w).1.db
after_staff a (unarchive_project id) env w = (Projects.unarchive a id env w).1.db
after_staff a (delete_project id) env w = (Projects.delete a id env w).1.db
after_staff a (place project input) env w = (place_member a project input env w).1.db
after_staff a (remove project user) env w = (remove_member a project user env w).1.db
after_staff a (clear user) env w = (clear_organization_member_placements a user env w).1.db

-- A request keeps what its statements keep, whether it succeeds or fails.
pub after_staff-Keeps :
    {P : Db → Type 0}
    → StaffKept P
    → (a : Actor) (request : StaffRequest) (env : Env) (w : World) → P w.db
    → P (after_staff a request env w)
unfolding after_staff
after_staff-Keeps k a (seed seeds project) env w h =
    (RoleChanges.ensure_seed-Keeps k a project seeds).holds env w h
after_staff-Keeps k a (create_role project input) env w h =
    (RoleChanges.create-Keeps k a project input).holds env w h
after_staff-Keeps k a (update_role project id change) env w h =
    (RoleChanges.update-Keeps k a project id change).holds env w h
after_staff-Keeps k a (delete_role project id) env w h =
    (RoleChanges.delete-Keeps k a project id).holds env w h
after_staff-Keeps k a (create_project name seeds) env w h =
    (ProjectChanges.create-Keeps k a name seeds).holds env w h
after_staff-Keeps k a (rename_project id name) env w h =
    (ProjectChanges.update-Keeps k a id name).holds env w h
after_staff-Keeps k a (archive_project id) env w h =
    (ProjectChanges.archive-Keeps k a id).holds env w h
after_staff-Keeps k a (unarchive_project id) env w h =
    (ProjectChanges.unarchive-Keeps k a id).holds env w h
after_staff-Keeps k a (delete_project id) env w h =
    (ProjectChanges.delete-Keeps k a id).holds env w h
after_staff-Keeps k a (place project input) env w h =
    (MemberChanges.place_member-Keeps k a project input).holds env w h
after_staff-Keeps k a (remove project user) env w h =
    (MemberChanges.remove_member-Keeps k a project user).holds env w h
after_staff-Keeps k a (clear user) env w h = (MemberChanges.clear-Keeps k a user).holds env w h

-- The databases that requests reach, one after the other.
pub data StaffReachable (start : Db) : Db → Type 0 where
  here : StaffReachable start start
  after :
      (w : World)
      → StaffReachable start w.db
      → (a : Actor) (request : StaffRequest) (env : Env)
      → StaffReachable start (after_staff a request env w)

pub reachable-Keeps :
    {P : Db → Type 0} {start d : Db} → StaffKept P → StaffReachable start d → P start → P d
reachable-Keeps k StaffReachable.here h = h
reachable-Keeps k (StaffReachable.after w r a request env) h =
    after_staff-Keeps k a request env w (reachable-Keeps k r h)
