-- ===== src/Staff/Locked.antt =====
-- A system role is neither renamed nor deleted.
use expense.Base.{
  ℕ, ◌<◌, ◌≤◌, ◌≡◌, ◌≢◌, ◌∙◌, refl, arith, true, ◌==◌, some, [], ◌∷◌, All, All-find, All-update,
  All-snoc, find, find-append, find-update, update,
}
use expense.Store.Rows.{Role}
use expense.Store.World.{Db}
use expense.Store.Roles.{
  NewRole, is_role, role_row, add_role_permission, create_role, delete_role_permissions,
  soft_delete_role,
}
use expense.Store.Projects.{
  archive_project, unarchive_project, update_project_name, create_project, delete_project_member,
  delete_project_members_for_organization_user, soft_delete_project,
}
use expense.Store.Rules.{create_default_approval_rule}
use expense.Store.Outbox.{create_outbox_event}
use expense.Staff.Cases.{
  renamed, create_role-cases, update_role_name-cases, upsert_project_member-cases,
}
use expense.Staff.Kept.{StaffKept, Unlocked}
use expense.Staff.Requests.{StaffReachable, reachable-Keeps}

-- The role stands in the table under its id, which no other row has.
pub record Stands (role : Role) (d : Db) : Type 0 where
  pub found : find (λ r. r.id == role.id) d.roles ≡ some role
  pub alone : All (λ (r : Role). r.id ≡ role.id → r ≡ role) d.roles
  pub old : role.id < d.next_id

module _ (role : Role) (system : role.is_system ≡ true) where
  other_id : (id project : ℕ) (d : Db) → Stands role d → Unlocked id project d → id ≢ role.id
  other_id id project d h (r, found, free) e =
      let k = All-find (is_role id project) d.roles h.alone found in
      let same : r ≡ role = k.0 (ground (arith, k.1, e)) in ground (arith, same, free, system)

  Stands-by_update :
      (id project : ℕ) (f : Role → Role) (d : Db)
      → ((r : Role) → (f r).id ≡ r.id)
      → id ≢ role.id
      → Stands role d
      → Stands role (record d { roles = update (is_role id project) f d.roles })
  Stands-by_update id project f d same other h = record {
    found =
        find-update (λ r. r.id == role.id) (is_role id project) f d.roles
          (λ r. ground (arith, same r))
        ∙ rw h.found (ground (arith, other));
    alone =
        All-update (is_role id project) f d.roles
          (λ r t k e. absurd (other (ground (arith, t, e, same r)))) (λ r t k. k) h.alone;
    old = h.old;
  }

  Stands-aside :
      (d d' : Db) → Stands role d → d'.roles ≡ d.roles → d.next_id ≤ d'.next_id → Stands role d'
  Stands-aside d d' h same grows = record {
    found = rw same h.found;
    alone = rw same h.alone;
    old = omega (arith, h.old, grows);
  }

  Stands-by_create :
      (p : NewRole) (now : ℕ) (d : Db) → Stands role d → Stands role (create_role p now d).1
  Stands-by_create p now d h = create_role-cases (Stands role) now d p h (λ _. record {
    found = find-append (λ r. r.id == role.id) d.roles (role_row now d.next_id p ∷ []) role h.found;
    alone =
        All-snoc d.roles (role_row now d.next_id p) h.alone (λ e. absurd (omega (arith, e, h.old)));
    old = omega (arith, h.old);
  })

  Stands-kept : StaffKept (Stands role)
  unfolding add_role_permission delete_role_permissions create_default_approval_rule
      create_outbox_event create_project update_project_name archive_project unarchive_project
      soft_delete_project delete_project_member delete_project_members_for_organization_user
      soft_delete_role
  Stands-kept = record {
    role_created = Stands-by_create;
    permission_added = λ role a now d h. Stands-aside d _ h (ground arith) (ground arith);
    permissions_deleted = λ role now d h. Stands-aside d _ h refl (omega arith);
    role_renamed = λ id project name now d c h.
        update_role_name-cases (Stands role) now d id project name h (λ _.
          Stands-by_update id project (renamed now name) d (λ r. refl) (other_id id project d h c)
            h);
    role_deleted = λ id project now d c _ h.
        Stands-by_update id project (λ r. record r { deleted_at = some now; updated_at = now }) d
          (λ r. refl) (other_id id project d h c) h;
    rule_created = λ org user now d h. Stands-aside d _ h (ground arith) (ground arith);
    emitted = λ kind aggregate topic payload now d h. Stands-aside d _ h refl (omega arith);
    project_created = λ org name user now d h. Stands-aside d _ h (ground arith) (ground arith);
    project_renamed = λ id org name now d h. Stands-aside d _ h (ground arith) (ground arith);
    archived = λ id org now d h. Stands-aside d _ h (ground arith) (ground arith);
    unarchived = λ id org now d h. Stands-aside d _ h (ground arith) (ground arith);
    project_deleted = λ id org now d h. Stands-aside d _ h refl (omega arith);
    placed = λ p now d _ h.
        upsert_project_member-cases (Stands role) now d p h
          (λ _. Stands-aside d _ h refl (omega arith))
          (λ _ _ _. Stands-aside d _ h refl (omega arith));
    removed = λ project user now d h. Stands-aside d _ h refl (omega arith);
    cleared = λ org user now d h. Stands-aside d _ h refl (omega arith);
  }

  -- The row of a system role, which alone has its id, stands unchanged in every database that
  -- requests on projects, placements and roles reach: none renames it or deletes it.
  pub reachable-Stands : {start d : Db} → StaffReachable start d → Stands role start → Stands role d
  reachable-Stands r h = reachable-Keeps Stands-kept r h
