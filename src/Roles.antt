-- ===== src/Roles.antt =====
-- internal/service/role/service.go: the roles of a project and the actions that they permit.
use expense.Base.{
  ℕ, Bool, true, false, not, ◌||◌, Option, none, some, List, [], ◌∷◌, Text, codes, text_eq, any,
  length, ltb, trim_space, if◌then◌else◌,
}
use expense.Store.Rows.{Role, Topic, Payload}
use expense.Store.World.{
  Db, Env, World, Error, Result, ok, err, failure, no_rows, unique_violation, role_name_taken,
  role_name_invalid, invalid_action, not_found, is_unique_violation, is_no_rows, system_role_locked,
  role_in_use, Statement, M, pure, raise, raise_if, ◌>>=◌, ◌>>◌, run, map_error, exec_tx,
}
use expense.Store.Roles.{
  NewRole, add_role_permission, count_role_usage, create_role, delete_role_permissions, get_role,
  get_role_by_name, list_role_actions, list_roles, soft_delete_role, update_role_name,
}
use expense.Store.Rules.{create_default_approval_rule}
use expense.Store.Outbox.{emit}
use expense.Authz.{Actor}
use expense.Approval.Submit.{or_not_found}
pub mod Names
pub mod Outcomes

-- constant/action.go.
abbrev pub all_actions : List Text
all_actions = codes "transaction.view" ∷ codes "transaction.create" ∷ codes "document.upload" ∷ []

unfoldable pub is_valid_action : Text → Bool
is_valid_action a = any (λ known. text_eq known a) all_actions

abbrev pub viewer : Text
viewer = codes "viewer"

-- The seeds of a project's roles; `SystemRoleActions` is a map, so that code that ranges over it
-- takes them in any order.
abbrev pub Seeds : Type 0
Seeds = List (Text × List Text)

abbrev pub system_role_actions : Seeds
system_role_actions =
    (viewer, codes "transaction.view" ∷ [])
    ∷ (codes "member", all_actions)
    ∷ (codes "admin", all_actions)
    ∷ []

-- The runes of the name are its codes.
unfoldable pub normalize_role_name : Text → Result Text
unfolding trim_space
normalize_role_name name =
    let trimmed = trim_space name in
    if text_eq trimmed [] || ltb 100 (length trimmed) then err role_name_invalid else ok trimmed

abbrev pub of_result : {A : Type 0} → Result A → M A
of_result r env w = (r, w)

-- The Role of model.go; `created_at` is written as text there.
pub record RoleView : Type 0 where
  pub id : ℕ
  pub project_id : ℕ
  pub name : Text
  pub is_system : Bool
  pub actions : List Text
  pub created_at : ℕ

abbrev pub to_role : Role → List Text → RoleView
to_role r actions = record {
  id = r.id;
  project_id = r.project_id;
  name = r.name;
  is_system = r.is_system;
  actions = actions;
  created_at = r.created_at;
}

unfoldable pub with_actions : Role → M RoleView
with_actions r = do actions ← run (list_role_actions r.id); pure (to_role r actions)

unfoldable pub add_permissions : (role_id : ℕ) → List Text → M (Unit {0})
add_permissions role [] = pure tt
add_permissions role (a ∷ actions) =
    run (add_role_permission role a) >> add_permissions role actions

-- After an error PostgreSQL refuses every statement of the database transaction until its end.
abbrev refused : {A : Type 0} → Statement A → Statement A
refused s now d = (err failure, d)

-- The row is looked up where another call has made it: by a statement that PostgreSQL refuses.
abbrev pub or_lookup : NewRole → Result Role × World → M Role
or_lookup p (ok r, w) env _ = (ok r, w)
or_lookup p (err e, w) env _ =
    if is_unique_violation e
    then run (refused (get_role_by_name p.project_id p.name)) env w
    else (err e, w)

unfoldable pub create_or_get_role : NewRole → M Role
create_or_get_role p env w = or_lookup p (run (create_role p) env w) env w

unfoldable pub seed_roles : Actor → (project_id : ℕ) → Seeds → M (Unit {0})
unfolding create_or_get_role add_permissions
seed_roles actor project [] = pure tt
seed_roles actor project ((name, actions) ∷ seeds) =
    (do
      r ← create_or_get_role (record {
        project_id = project;
        name = name;
        is_system = true;
        created_by = actor.user_id;
      })
      add_permissions r.id actions)
    >> seed_roles actor project seeds

unfoldable pub seed_body : Actor → (project_id : ℕ) → Seeds → M (Unit {0})
unfolding seed_roles
seed_body actor project seeds = do
  seed_roles actor project seeds
  run (create_default_approval_rule actor.org_id actor.user_id)

-- What a lookup of the viewer's role says of the project: seeded, not seeded, or an error.
abbrev pub unless_seeded : M (Unit {0}) → Result Role × World → Env → Result (Unit {0}) × World
unless_seeded seed (ok r, w) env = (ok tt, w)
unless_seeded seed (err e, w) env = if is_no_rows e then seed env w else (err e, w)

unfoldable pub ensure_seed : Actor → (project_id : ℕ) → Seeds → M (Unit {0})
unfolding seed_body
ensure_seed actor project seeds env w =
    unless_seeded (exec_tx (seed_body actor project seeds))
      (run (get_role_by_name project viewer) env w) env

-- The actions of an input are known ones.
abbrev pub check_actions : List Text → M (Unit {0})
check_actions actions = raise_if (any (λ a. not (is_valid_action a)) actions) invalid_action

-- A name that a lookup finds is taken.
abbrev pub untaken : Result Role × World → Result (Unit {0}) × World
untaken (ok r, w) = (err role_name_taken, w)
untaken (err e, w) = (if is_no_rows e then ok tt else err e, w)

unfoldable pub check_name_free : (project_id : ℕ) → Text → M (Unit {0})
check_name_free project name env w = untaken (run (get_role_by_name project name) env w)

pub record RoleInput : Type 0 where
  pub name : Text
  pub actions : List Text

unfoldable pub create_body : Actor → (project_id : ℕ) → RoleInput → M Role
unfolding check_name_free add_permissions
create_body actor project input = do
  check_name_free project input.name
  r ← run (
      create_role (record {
        project_id = project;
        name = input.name;
        is_system = false;
        created_by = actor.user_id;
      }))
  add_permissions r.id input.actions
  emit (codes "role") r.id Topic.audit
      (Payload.role_created project r.id input.name input.actions actor.user_id)
  pure r

unfoldable pub create : Actor → (project_id : ℕ) → RoleInput → M RoleView
unfolding normalize_role_name is_valid_action create_body with_actions
create actor project input = do
  name ← of_result (normalize_role_name input.name)
  check_actions input.actions
  created ← exec_tx (create_body actor project (record input { name = name }))
  with_actions created

unfoldable pub find_role : (project_id id : ℕ) → M Role
find_role project id = map_error or_not_found (run (get_role id project))

unfoldable pub get : (project_id id : ℕ) → M RoleView
unfolding find_role with_actions
get project id = do r ← find_role project id; with_actions r

unfoldable pub with_all_actions : List Role → M (List RoleView)
unfolding with_actions
with_all_actions [] = pure []
with_all_actions (r ∷ rs) = do
  view ← with_actions r
  views ← with_all_actions rs
  pure (view ∷ views)

unfoldable pub list : (project_id : ℕ) → M (List RoleView)
unfolding with_all_actions
list project = do rows ← run (list_roles project); with_all_actions rows

-- UpdateInput: a part that is missing stays as it is.
pub record RoleChange : Type 0 where
  pub name : Option Text
  pub actions : Option (List Text)

abbrev pub normalize_option : Option Text → Result (Option Text)
normalize_option none = ok none
normalize_option (some name) = elim (normalize_role_name name) [
  | ok n ↦ ok (some n)
  | err e ↦ err e
]

abbrev pub check_new_actions : Option (List Text) → M (Unit {0})
check_new_actions none = pure tt
check_new_actions (some actions) = check_actions actions

abbrev pub or_name_taken : Error → Error
or_name_taken Error.unique_violation = role_name_taken
or_name_taken e = e

abbrev pub rename : (project_id id : ℕ) → Option Text → M (Unit {0})
rename project id none = pure tt
rename project id (some name) =
    map_error or_name_taken (run (update_role_name id project name)) >> pure tt

abbrev pub replace_actions : (id : ℕ) → Option (List Text) → M (Unit {0})
replace_actions id none = pure tt
replace_actions id (some actions) = run (delete_role_permissions id) >> add_permissions id actions

unfoldable pub update_body : Actor → (project_id id : ℕ) → RoleChange → M (Unit {0})
unfolding add_permissions
update_body actor project id change = do
  rename project id change.name
  replace_actions id change.actions
  emit (codes "role") id Topic.audit (Payload.role_updated project id actor.user_id)

-- The role is there, and no system role.
unfoldable pub check_unlocked : (project_id id : ℕ) → M (Unit {0})
unfolding find_role
check_unlocked project id = do
  existing ← find_role project id
  raise_if existing.is_system system_role_locked

unfoldable pub update : Actor → (project_id id : ℕ) → RoleChange → M RoleView
unfolding normalize_role_name is_valid_action check_unlocked update_body get
update actor project id change = do
  name ← of_result (normalize_option change.name)
  check_new_actions change.actions
  check_unlocked project id
  exec_tx (update_body actor project id (record change { name = name }))
  get project id

unfoldable pub delete_body : Actor → (project_id id : ℕ) → M (Unit {0})
delete_body actor project id = do
  rows ← run (soft_delete_role id project)
  raise_if (not (ltb 0 rows)) not_found
  emit (codes "role") id Topic.audit (Payload.role_deleted project id actor.user_id)

unfoldable pub delete : Actor → (project_id id : ℕ) → M (Unit {0})
unfolding check_unlocked delete_body
delete actor project id = do
  check_unlocked project id
  usage ← run (count_role_usage id)
  raise_if (ltb 0 usage) role_in_use
  exec_tx (delete_body actor project id)
