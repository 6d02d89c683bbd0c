-- ===== src/Staff/Kept.antt =====
-- What the statements on projects, members and roles keep, each in the place where the services
-- run it.
use expense.Base.{ℕ, ◌≡◌, true, false, find, any, count, ◌==◌, some, Text}
use expense.Store.Rows.{Role, ProjectMember, Topic, Payload}
use expense.Store.World.{Db, Result, ok, err, Statement, run}
use expense.Store.Hoare.{Triple, Yields, run_rule}
use expense.Store.Keeps.{Keeps-run}
use expense.Store.Frames.{of_keeps}
use expense.Store.Roles.{
  NewRole, is_role, add_role_permission, create_role, delete_role_permissions, soft_delete_role,
  update_role_name,
}
use expense.Store.Projects.{
  Placement, archive_project, unarchive_project, update_project_name, create_project,
  delete_project_member, delete_project_members_for_organization_user, soft_delete_project,
  upsert_project_member,
}
use expense.Store.Rules.{create_default_approval_rule}
use expense.Store.Outbox.{create_outbox_event}

-- The role is there and no system role.
abbrev pub Unlocked : (id project_id : ℕ) → Db → Type 0
Unlocked id project d =
    (r : Role) × (find (is_role id project) d.roles ≡ some r) × (r.is_system ≡ false)

abbrev pub Unused : (role_id : ℕ) → Db → Type 0
Unused id d = count (λ (m : ProjectMember). m.role_id == id) d.members ≡ 0

abbrev pub HasRole : (id project_id : ℕ) → Db → Type 0
HasRole id project d = any (is_role id project) d.roles ≡ true

pub record StaffKept (P : Db → Type 0) : Type 0 where
  pub role_created : (p : NewRole) (now : ℕ) (d : Db) → P d → P (create_role p now d).1
  pub permission_added :
      (role : ℕ) (a : Text) (now : ℕ) (d : Db) → P d → P (add_role_permission role a now d).1
  pub permissions_deleted : (role now : ℕ) (d : Db) → P d → P (delete_role_permissions role now d).1
  pub role_renamed :
      (id project : ℕ) (name : Text) (now : ℕ) (d : Db)
      → Unlocked id project d
      → P d
      → P (update_role_name id project name now d).1
  pub role_deleted :
      (id project now : ℕ) (d : Db)
      → Unlocked id project d
      → Unused id d
      → P d
      → P (soft_delete_role id project now d).1
  pub rule_created :
      (org user now : ℕ) (d : Db) → P d → P (create_default_approval_rule org user now d).1
  pub emitted :
      (kind : Text) (aggregate : ℕ) (topic : Topic) (payload : Payload) (now : ℕ) (d : Db)
      → P d
      → P (create_outbox_event kind aggregate topic payload now d).1
  pub project_created :
      (org : ℕ) (name : Text) (user now : ℕ) (d : Db)
      → P d
      → P (create_project org name user now d).1
  pub project_renamed :
      (id org : ℕ) (name : Text) (now : ℕ) (d : Db)
      → P d
      → P (update_project_name id org name now d).1
  pub archived : (id org now : ℕ) (d : Db) → P d → P (archive_project id org now d).1
  pub unarchived : (id org now : ℕ) (d : Db) → P d → P (unarchive_project id org now d).1
  pub project_deleted : (id org now : ℕ) (d : Db) → P d → P (soft_delete_project id org now d).1
  pub placed :
      (p : Placement) (now : ℕ) (d : Db)
      → HasRole p.role_id p.project_id d
      → P d
      → P (upsert_project_member p now d).1
  pub removed :
      (project user now : ℕ) (d : Db) → P d → P (delete_project_member project user now d).1
  pub cleared :
      (org user now : ℕ) (d : Db)
      → P d
      → P (delete_project_members_for_organization_user org user now d).1

-- A statement that keeps `P` where `C` holds too.
pub kept_where :
    {A : Type 0} {P C : Db → Type 0} (s : Statement A)
    → ((now : ℕ) (d : Db) → C d → P d → P (s now d).1)
    → Triple (λ d. P d × C d) (run s) (λ _ d. P d)
kept_where {A} {P} s h = run_rule s (λ now d p. yielded P (s now d) (h now d p.1 p.0))
  where
    yielded : (P : Db → Type 0) (r : Result A × Db) → P r.1 → Yields (λ _ d. P d) r
    yielded P (ok a, d) p = p
    yielded P (err e, d) p = tt

pub kept :
    {A : Type 0} {P : Db → Type 0} (s : Statement A)
    → ((now : ℕ) (d : Db) → P d → P (s now d).1)
    → Triple P (run s) (λ _ d. P d)
kept s h = of_keeps (Keeps-run s h)
