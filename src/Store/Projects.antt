-- ===== src/Store/Projects.antt =====
-- The statements of internal/repository/projects.sql.go.
use expense.Base.{
  ℕ, suc, ◌+◌, Bool, false, not, ◌&&◌, ◌||◌, Option, none, some, List, [], ◌∷◌, ◌++◌, Text, length,
  filter, find, any, count, update, sort_by, take, drop, is_none, is_some, if◌then◌else◌, ◌==◌, ltb,
  map,
}
use expense.Store.Rows.{Project, ProjectMember, Role, Transaction}
use expense.Store.DocumentRows.{Document}
use expense.Store.World.{ok, err, no_rows, failure, one, Statement}

abbrev pub is_project : (id organization_id : ℕ) → Project → Bool
is_project id org p = p.id == id && p.organization_id == org && is_none p.deleted_at

unfoldable pub get_project : (id organization_id : ℕ) → Statement Project
get_project id org now d = (one (find (is_project id org) d.projects), d)

-- The same rows, locked.
unfoldable pub lock_project_for_delete : (id organization_id : ℕ) → Statement Project
lock_project_for_delete id org now d = (one (find (is_project id org) d.projects), d)

unfoldable pub lock_project_for_document_upload : (id organization_id : ℕ) → Statement Project
lock_project_for_document_upload id org now d = (one (find (is_project id org) d.projects), d)

-- UPDATE … RETURNING of the project that `p` selects, with `trg_projects_updated_at`.
abbrev pub change_project : (Project → Bool) → (Project → Project) → Statement Project
change_project p f now d =
    let change = λ (x : Project). record (f x) { updated_at = now } in
    elim (find p d.projects) [
      | none ↦ (err no_rows, d)
      | some x ↦ (ok (change x), record d { projects = update p change d.projects })
    ]

unfoldable pub archive_project : (id organization_id : ℕ) → Statement Project
archive_project id org now =
    change_project (λ p. is_project id org p && is_none p.archived_at)
      (λ p. record p { archived_at = some now }) now

unfoldable pub unarchive_project : (id organization_id : ℕ) → Statement Project
unarchive_project id org now =
    change_project (λ p. is_project id org p && is_some p.archived_at)
      (λ p. record p { archived_at = none }) now

-- VARCHAR(255).
unfoldable pub update_project_name : (id organization_id : ℕ) (name : Text) → Statement Project
update_project_name id org name now d =
    if any (is_project id org) d.projects && ltb 255 (length name)
    then (err failure, d)
    else change_project (is_project id org) (λ p. record p { name = name }) now d

unfoldable pub count_project_documents : (project_id : ℕ) → Statement ℕ
count_project_documents project now d =
    (ok (count (λ (x : Document). x.project_id == project) d.documents), d)

unfoldable pub count_project_transactions : (project_id : ℕ) → Statement ℕ
count_project_transactions project now d = (
  ok (count (λ (t : Transaction). t.project_id == project && is_none t.deleted_at) d.transactions),
  d,
)

abbrev pub project_row : (now id organization_id : ℕ) (name : Text) (created_by : ℕ) → Project
project_row now id org name by = record {
  id = id;
  organization_id = org;
  name = name;
  created_by = by;
  created_at = now;
  updated_at = now;
  deleted_at = none;
  archived_at = none;
}

unfoldable pub create_project :
    (organization_id : ℕ) (name : Text) (created_by : ℕ) → Statement Project
create_project org name by now d = if ltb 255 (length name) then (err failure, d) else (
  ok (project_row now d.next_id org name by),
  record d {
    projects = d.projects ++ project_row now d.next_id org name by ∷ [];
    next_id = suc d.next_id;
  },
)

abbrev pub is_placed : (project_id user_id : ℕ) → ProjectMember → Bool
is_placed project user m = m.project_id == project && m.user_id == user

unfoldable pub delete_project_member : (project_id user_id : ℕ) → Statement ℕ
delete_project_member project user now d = (
  ok (count (is_placed project user) d.members),
  record d { members = filter (λ m. not (is_placed project user m)) d.members },
)

abbrev pub is_of_user : (organization_id user_id : ℕ) → ProjectMember → Bool
is_of_user org user m = m.organization_id == org && m.user_id == user

unfoldable pub delete_project_members_for_organization_user :
    (organization_id user_id : ℕ) → Statement (List ℕ)
delete_project_members_for_organization_user org user now d = (
  ok (map (λ m. m.project_id) (filter (is_of_user org user) d.members)),
  record d { members = filter (λ m. not (is_of_user org user m)) d.members },
)

unfoldable pub get_project_member : (project_id user_id : ℕ) → Statement ProjectMember
get_project_member project user now d = (one (find (is_placed project user) d.members), d)

-- ORDER BY created_at DESC LIMIT … OFFSET ….
abbrev pub page : {A : Type 0} → (limit offset : ℕ) → List A → List A
page limit offset xs = take limit (drop offset xs)

abbrev pub is_newer : Project → Project → Bool
is_newer a b = ltb b.created_at a.created_at

abbrev pub is_shown : (organization_id : ℕ) (include_archived : Bool) → Project → Bool
is_shown org archived p =
    p.organization_id == org && is_none p.deleted_at && (archived || is_none p.archived_at)

unfoldable pub list_projects :
    (organization_id : ℕ) (include_archived : Bool) (limit offset : ℕ) → Statement (List Project)
list_projects org archived limit offset now d =
    (ok (page limit offset (sort_by is_newer (filter (is_shown org archived) d.projects))), d)

unfoldable pub list_placed_projects :
    (organization_id user_id : ℕ) (include_archived : Bool) (limit offset : ℕ)
    → Statement (List Project)
list_placed_projects org user archived limit offset now d = (
  ok (
      page limit offset (
        sort_by is_newer (
          filter (λ p. is_shown org archived p && any (is_placed p.id user) d.members)
            d.projects))),
  d,
)

-- ListProjectMembersRow: the placement and its live role.
pub record PlacedMember : Type 0 where
  pub member : ProjectMember
  pub role : Role

-- The join of a placement with the live roles.
abbrev pub with_role : List Role → List ProjectMember → List PlacedMember
with_role roles [] = []
with_role roles (m ∷ ms) =
    let rest = with_role roles ms in
    elim (find (λ r. r.id == m.role_id && is_none r.deleted_at) roles) [
      | none ↦ rest
      | some r ↦ record { member = m; role = r } ∷ rest
    ]

unfoldable pub list_project_members : (project_id : ℕ) → Statement (List PlacedMember)
list_project_members project now d = (
  ok (
      with_role d.roles (
        sort_by (λ a b. ltb a.created_at b.created_at)
          (filter (λ m. m.project_id == project) d.members))),
  d,
)

unfoldable pub soft_delete_project : (id organization_id : ℕ) → Statement ℕ
soft_delete_project id org now d = (
  ok (count (is_project id org) d.projects),
  record d {
    projects =
        update (is_project id org) (λ p. record p { deleted_at = some now; updated_at = now })
          d.projects;
  },
)

-- UpsertProjectMemberParams.
pub record Placement : Type 0 where
  pub organization_id : ℕ
  pub project_id : ℕ
  pub user_id : ℕ
  pub role_id : ℕ
  pub expected_version : Option ℕ

abbrev pub member_row : ℕ → Placement → ProjectMember
member_row now p = record {
  organization_id = p.organization_id;
  project_id = p.project_id;
  user_id = p.user_id;
  role_id = p.role_id;
  created_at = now;
  updated_at = now;
  version = 1;
}

abbrev pub moved : ℕ → (role_id : ℕ) → ProjectMember → ProjectMember
moved now role m = record m { role_id = role; version = m.version + 1; updated_at = now }

-- `version = $5`, which a NULL is not.
abbrev pub is_version : Option ℕ → ℕ → Bool
is_version none v = false
is_version (some e) v = v == e

-- A placement is added, or its role is changed where the version is the one expected; else no row
-- comes back. Project and role are foreign keys.
unfoldable pub upsert_project_member : Placement → Statement ProjectMember
upsert_project_member p now d =
    if not (any (λ (x : Project). x.id == p.project_id) d.projects)
      || not (any (λ (r : Role). r.id == p.role_id) d.roles)
    then (err failure, d)
    else elim (find (is_placed p.project_id p.user_id) d.members) [
      | none ↦ (ok (member_row now p), record d { members = d.members ++ member_row now p ∷ [] })
      | some m ↦
          if is_version p.expected_version m.version
          then (
            ok (moved now p.role_id m),
            record d {
              members = update (is_placed p.project_id p.user_id) (moved now p.role_id) d.members;
            },
          )
          else (err no_rows, d)
    ]
