-- ===== src/Store/Roles.antt =====
-- The statements of internal/repository/roles.sql.go on roles and their permissions.
use expense.Base.{
  ℕ, suc, Bool, true, false, not, ◌&&◌, ◌||◌, List, [], ◌∷◌, ◌++◌, Text, text_eq, length, filter,
  find, any, count, update, sort_by, is_none, if◌then◌else◌, ◌==◌, ltb, map, some, none,
}
use expense.Store.Rows.{Role, RolePermission, ProjectMember}
use expense.Store.World.{ok, err, no_rows, unique_violation, failure, one, Statement}

-- The order of the text by its code points.
pub text_before : Text → Text → Bool
text_before [] [] = false
text_before [] (y ∷ ys) = true
text_before (x ∷ xs) [] = false
text_before (x ∷ xs) (y ∷ ys) = let rest = text_before xs ys in ltb x y || (x == y && rest)

-- ON CONFLICT (role_id, action) DO NOTHING; the role is a foreign key.
unfoldable pub add_role_permission : (role_id : ℕ) (action : Text) → Statement (Unit {0})
add_role_permission role action now d =
    if not (any (λ (r : Role). r.id == role) d.roles)
    then (err failure, d)
    else if any (λ (p : RolePermission). p.role_id == role && text_eq p.action action) d.permissions
    then (ok tt, d)
    else (
      ok tt,
      record d { permissions = d.permissions ++ record { role_id = role; action = action } ∷ [] },
    )

unfoldable pub count_role_usage : (role_id : ℕ) → Statement ℕ
count_role_usage role now d = (ok (count (λ (m : ProjectMember). m.role_id == role) d.members), d)

-- A live role of the project with this name, which `ux_roles_project_name` lets be there once.
abbrev pub has_name : (project_id : ℕ) (name : Text) → Role → Bool
has_name project name r = r.project_id == project && text_eq r.name name && is_none r.deleted_at

-- VARCHAR(100).
abbrev pub is_too_long : Text → Bool
is_too_long name = ltb 100 (length name)

-- CreateRoleParams.
pub record NewRole : Type 0 where
  pub project_id : ℕ
  pub name : Text
  pub is_system : Bool
  pub created_by : ℕ

abbrev pub role_row : (now id : ℕ) → NewRole → Role
role_row now id p = record {
  id = id;
  project_id = p.project_id;
  name = p.name;
  is_system = p.is_system;
  created_by = p.created_by;
  created_at = now;
  updated_at = now;
  deleted_at = none;
}

unfoldable pub create_role : NewRole → Statement Role
create_role p now d =
    if is_too_long p.name
    then (err failure, d)
    else if any (has_name p.project_id p.name) d.roles
    then (err unique_violation, d)
    else (
      ok (role_row now d.next_id p),
      record d { roles = d.roles ++ role_row now d.next_id p ∷ []; next_id = suc d.next_id },
    )

unfoldable pub delete_role_permissions : (role_id : ℕ) → Statement (Unit {0})
delete_role_permissions role now d =
    (ok tt, record d { permissions = filter (λ p. not (p.role_id == role)) d.permissions })

abbrev pub is_role : (id project_id : ℕ) → Role → Bool
is_role id project r = r.id == id && r.project_id == project && is_none r.deleted_at

unfoldable pub get_role : (id project_id : ℕ) → Statement Role
get_role id project now d = (one (find (is_role id project) d.roles), d)

unfoldable pub get_role_by_name : (project_id : ℕ) (name : Text) → Statement Role
get_role_by_name project name now d = (one (find (has_name project name) d.roles), d)

unfoldable pub list_role_actions : (role_id : ℕ) → Statement (List Text)
unfolding text_before
list_role_actions role now d = (
  ok (
      sort_by text_before
        (map (λ p. p.action) (filter (λ (p : RolePermission). p.role_id == role) d.permissions))),
  d,
)

-- ORDER BY is_system DESC, name ASC.
pub in_role_order : Role → Role → Bool
unfolding text_before
in_role_order a b =
    (a.is_system && not b.is_system)
    || (not (a.is_system && not b.is_system)
        && not (b.is_system && not a.is_system)
        && text_before a.name b.name)

unfoldable pub list_roles : (project_id : ℕ) → Statement (List Role)
unfolding in_role_order
list_roles project now d = (
  ok (
      sort_by in_role_order
        (filter (λ (r : Role). r.project_id == project && is_none r.deleted_at) d.roles)),
  d,
)

unfoldable pub soft_delete_role : (id project_id : ℕ) → Statement ℕ
soft_delete_role id project now d = (
  ok (count (is_role id project) d.roles),
  record d {
    roles =
        update (is_role id project) (λ r. record r { deleted_at = some now; updated_at = now })
          d.roles;
  },
)

unfoldable pub update_role_name : (id project_id : ℕ) (name : Text) → Statement Role
update_role_name id project name now d =
    let change = λ (r : Role). record r { name = name; updated_at = now } in
    elim (find (is_role id project) d.roles) [
      | none ↦ (err no_rows, d)
      | some r ↦
          if is_too_long name
          then (err failure, d)
          else if any (λ x. not (x.id == id) && has_name project name x) d.roles
          then (err unique_violation, d)
          else (ok (change r), record d { roles = update (is_role id project) change d.roles })
    ]
