-- ===== src/Staff/Cases.antt =====
-- What the three statements that may refuse a row leave in the tables: the tables as they were, or
-- with the row.
use expense.Base.{
  ℕ, suc, ◌≡◌, inl, inr, true, false, not, ◌&&◌, ◌||◌, ◌==◌, none, some, [], ◌∷◌, ◌++◌, Text, any,
  find, update, Bool-cases, Option-cases,
}
use expense.Store.Rows.{Role, ProjectMember, Project}
use expense.Store.World.{Db}
use expense.Store.Roles.{
  NewRole, is_role, has_name, role_row, create_role, update_role_name, is_too_long,
}
use expense.Store.Projects.{
  Placement, is_placed, member_row, moved, is_version, upsert_project_member,
}

abbrev pub renamed : (now : ℕ) (name : Text) → Role → Role
renamed now name r = record r { name = name; updated_at = now }

module _ (Q : Db → Type 0) (now : ℕ) (d : Db) where
  pub create_role-cases :
      (p : NewRole)
      → Q d
      → (any (has_name p.project_id p.name) d.roles ≡ false
          → Q (record d {
            roles = d.roles ++ role_row now d.next_id p ∷ [];
            next_id = suc d.next_id;
          }))
      → Q (create_role p now d).1
  unfolding create_role
  create_role-cases p h k = elim (Bool-cases (is_too_long p.name)) [
    | inl e ↦ rw e h
    | inr e ↦ elim (Bool-cases (any (has_name p.project_id p.name) d.roles)) [
      | inl f ↦ rw (e, f) h
      | inr f ↦ rw (e, f) (k f)
    ]
  ]

  pub update_role_name-cases :
      (id project : ℕ) (name : Text)
      → Q d
      → (any (λ x. not (x.id == id) && has_name project name x) d.roles ≡ false
          → Q (record d { roles = update (is_role id project) (renamed now name) d.roles }))
      → Q (update_role_name id project name now d).1
  unfolding update_role_name
  update_role_name-cases id project name h k =
      elim (Option-cases (find (is_role id project) d.roles)) [
        | inl e ↦ rw (e, update_role_name) h
        | inr (r, e) ↦ elim (Bool-cases (is_too_long name)) [
          | inl f ↦ rw (e, f, update_role_name) h
          | inr f ↦
              elim (Bool-cases (any (λ x. not (x.id == id) && has_name project name x) d.roles)) [
                | inl g ↦ rw (e, f, g, update_role_name) h
                | inr g ↦ rw (e, f, g, update_role_name) (k g)
              ]
        ]
      ]

  pub upsert_project_member-cases :
      (p : Placement)
      → Q d
      → (find (is_placed p.project_id p.user_id) d.members ≡ none
          → Q (record d { members = d.members ++ member_row now p ∷ [] }))
      → ((m : ProjectMember)
          → find (is_placed p.project_id p.user_id) d.members ≡ some m
          → is_version p.expected_version m.version ≡ true
          → Q (record d {
            members = update (is_placed p.project_id p.user_id) (moved now p.role_id) d.members;
          }))
      → Q (upsert_project_member p now d).1
  unfolding upsert_project_member
  upsert_project_member-cases p h add change =
      elim (Bool-cases (
        not (any (λ (x : Project). x.id == p.project_id) d.projects)
        || not (any (λ (r : Role). r.id == p.role_id) d.roles))) [
          | inl e ↦ rw (e, upsert_project_member) h
          | inr e ↦ elim (Option-cases (find (is_placed p.project_id p.user_id) d.members)) [
            | inl f ↦ rw (e, f, upsert_project_member) (add f)
            | inr (m, f) ↦ elim (Bool-cases (is_version p.expected_version m.version)) [
              | inl g ↦ rw (e, f, g, upsert_project_member) (change m f g)
              | inr g ↦ rw (e, f, g, upsert_project_member) h
            ]
          ]
        ]
