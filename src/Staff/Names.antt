-- ===== src/Staff/Names.antt =====
-- The live roles of a project have different names.
use expense.Base.{
  ℕ, ◌<◌, ◌≤◌, ◌≡◌, refl, arith, Bool, false, not, ◌==◌, ◌&&◌, [], ◌∷◌, Text, text_eq, is_none,
  some, All, All-map, All-pair, All-update, All-snoc, Pairwise, Pairwise-snoc, Pairwise-update,
  All-of_any-false, changed,
}
use expense.Store.Rows.{Role}
use expense.Store.World.{Db}
use expense.Store.Roles.{
  NewRole, is_role, has_name, role_row, add_role_permission, create_role, delete_role_permissions,
  soft_delete_role, update_role_name,
}
use expense.Store.Projects.{
  archive_project, unarchive_project, update_project_name, create_project, delete_project_member,
  delete_project_members_for_organization_user, soft_delete_project,
}
use expense.Store.Rules.{create_default_approval_rule}
use expense.Store.Outbox.{create_outbox_event}
use expense.Staff.Cases.{
  renamed, create_role-cases, update_role_name-cases, upsert_project_member-cases,
}
use expense.Staff.Kept.{StaffKept}
use expense.Staff.Requests.{StaffReachable, reachable-Keeps}

abbrev pub are_namesakes : Role → Role → Bool
are_namesakes r x =
    is_none r.deleted_at
    && is_none x.deleted_at
    && r.project_id == x.project_id
    && text_eq r.name x.name

-- Two live roles of a project have different names, and every two roles different ids, below the
-- next one.
pub record HasNames (d : Db) : Type 0 where
  pub names : Pairwise (λ r x. (are_namesakes r x ≡ false) × ((r.id == x.id) ≡ false)) d.roles
  pub ids : All (λ (r : Role). r.id < d.next_id) d.roles

text_eq_sym : (s t : Text) → text_eq s t ≡ text_eq t s
text_eq_sym [] [] = refl
text_eq_sym [] (y ∷ ys) = refl
text_eq_sym (x ∷ xs) [] = refl
text_eq_sym (x ∷ xs) (y ∷ ys) = ground (arith, text_eq_sym xs ys)

names_by_create : (p : NewRole) (now : ℕ) (d : Db) → HasNames d → HasNames (create_role p now d).1
names_by_create p now d h = create_role-cases HasNames now d p h (λ e. record {
  names = Pairwise-snoc d.roles (role_row now d.next_id p) h.names (
      All-map d.roles (λ r k. (ground (arith, k), ground (arith, k)))
        (All-pair d.roles h.ids (All-of_any-false (has_name p.project_id p.name) d.roles e)));
  ids =
      All-snoc d.roles (role_row now d.next_id p) (All-map d.roles (λ r k. omega (arith, k)) h.ids)
        (omega arith);
})

-- What a rename makes of two rows, none of which had the name but under the id.
rename_apart :
    (id project now : ℕ) (name : Text) (r x : Role)
    → (not (r.id == id) && has_name project name r) ≡ false
    → (not (x.id == id) && has_name project name x) ≡ false
    → are_namesakes r x ≡ false
    → (r.id == x.id) ≡ false
    → are_namesakes
        (changed (is_role id project) (renamed now name) r)
        (changed (is_role id project) (renamed now name) x)
      ≡ false
rename_apart id project now name r x hr hx apart ids =
    ground (arith, text_eq_sym name x.name, text_eq_sym r.name name)

same_id :
    (id project now : ℕ) (name : Text) (r : Role)
    → (changed (is_role id project) (renamed now name) r).id ≡ r.id
same_id id project now name r = ground arith

names_by_rename :
    (id project : ℕ) (name : Text) (now : ℕ) (d : Db)
    → HasNames d
    → HasNames (update_role_name id project name now d).1
names_by_rename id project name now d h =
    update_role_name-cases HasNames now d id project name h (λ e. record {
      names =
          Pairwise-update (is_role id project) (renamed now name) d.roles
            (λ r x hr hx k. (
              rename_apart id project now name r x hr hx k.0 k.1,
              rw (same_id id project now name r, same_id id project now name x) k.1,
            ))
            (All-of_any-false (λ x. not (x.id == id) && has_name project name x) d.roles e) h.names;
      ids =
          All-update (is_role id project) (renamed now name) d.roles (λ r t k. k) (λ r t k. k)
            h.ids;
    })

names_by_delete :
    (id project now : ℕ) (d : Db) → HasNames d → HasNames (soft_delete_role id project now d).1
unfolding soft_delete_role
names_by_delete id project now d h =
    let close = λ (r : Role). record r { deleted_at = some now; updated_at = now } in
    record {
      names =
          Pairwise-update (is_role id project) close d.roles
            (λ r x _ _ k. (ground (arith, k), ground (arith, k))) h.ids h.names;
      ids = All-update (is_role id project) close d.roles (λ r t k. k) (λ r t k. k) h.ids;
    }

-- A statement that leaves the roles alone.
names_aside : (d d' : Db) → HasNames d → d'.roles ≡ d.roles → d.next_id ≤ d'.next_id → HasNames d'
names_aside d d' h same grows = record {
  names = rw same h.names;
  ids = rw same (All-map d.roles (λ r k. omega (arith, k, grows)) h.ids);
}

names-kept : StaffKept HasNames
unfolding add_role_permission delete_role_permissions create_default_approval_rule
    create_outbox_event create_project update_project_name archive_project unarchive_project
    soft_delete_project delete_project_member delete_project_members_for_organization_user
names-kept = record {
  role_created = names_by_create;
  permission_added = λ role a now d h. names_aside d _ h (ground arith) (ground arith);
  permissions_deleted = λ role now d h. names_aside d _ h refl (omega arith);
  role_renamed = λ id project name now d _ h. names_by_rename id project name now d h;
  role_deleted = λ id project now d _ _ h. names_by_delete id project now d h;
  rule_created = λ org user now d h. names_aside d _ h (ground arith) (ground arith);
  emitted = λ kind aggregate topic payload now d h. names_aside d _ h refl (omega arith);
  project_created = λ org name user now d h. names_aside d _ h (ground arith) (ground arith);
  project_renamed = λ id org name now d h. names_aside d _ h (ground arith) (ground arith);
  archived = λ id org now d h. names_aside d _ h (ground arith) (ground arith);
  unarchived = λ id org now d h. names_aside d _ h (ground arith) (ground arith);
  project_deleted = λ id org now d h. names_aside d _ h refl (omega arith);
  placed = λ p now d _ h.
      upsert_project_member-cases HasNames now d p h (λ _. names_aside d _ h refl (omega arith))
        (λ _ _ _. names_aside d _ h refl (omega arith));
  removed = λ project user now d h. names_aside d _ h refl (omega arith);
  cleared = λ org user now d h. names_aside d _ h refl (omega arith);
}

-- Two live roles of a project have different names, in every database that requests on projects,
-- placements and roles reach from one where it is so and ids are not used twice, whatever fails in
-- them.
pub reachable-HasNames : {start d : Db} → StaffReachable start d → HasNames start → HasNames d
reachable-HasNames r h = reachable-Keeps names-kept r h
