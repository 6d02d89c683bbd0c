-- ===== src/Staff/ProjectChanges.antt =====
-- What the requests on projects and placements keep, by what their statements keep.
use expense.Base.{ℕ, ◌≡◌, refl, arith, true, not, ltb, some, List, [], ◌∷◌, Text, codes, find, any}
use expense.Store.Rows.{Role}
use expense.Store.World.{Db, not_found, project_has_documents, project_has_transactions}
use expense.Store.Hoare.{Triple, bind, weaken, strengthen, read_one_rule, raise_if_rule, pure_rule}
use expense.Store.Keeps.{Keeps, Keeps-bind, Keeps-map_error, Keeps-pure, Keeps-exec_tx}
use expense.Store.Roles.{is_role, has_name, create_role, get_role_by_name}
use expense.Store.Projects.{
  archive_project, unarchive_project, update_project_name, count_project_documents,
  count_project_transactions, create_project, lock_project_for_delete, soft_delete_project,
  upsert_project_member,
}
use expense.Store.Rules.{create_default_approval_rule}
use expense.Authz.{Actor}
use expense.Approval.Submit.{or_not_found}
use expense.Roles.{Seeds}
use expense.Projects
use expense.Projects.{
  make_roles, place_creator, create_body, find_project, update_body, delete_body, archive_body,
  unarchive_body, check_placed,
}
use expense.Staff.Kept.{StaffKept, kept_where, kept}
use expense.Staff.RoleChanges.{emit-kept, add_permissions-kept}

module _ {P : Db → Type 0} (k : StaffKept P) where
  make_roles-kept :
      (actor : Actor) (project : ℕ) (seeds : Seeds)
      → Triple P (make_roles actor project seeds) (λ _ d. P d)
  unfolding make_roles
  make_roles-kept actor project [] = weaken (pure_rule tt) (λ _ d h. h.0)
  make_roles-kept actor project ((name, actions) ∷ seeds) =
      bind
        (bind (kept (create_role _) (k.role_created _)) (λ r. add_permissions-kept k r.id actions))
        (λ _. make_roles-kept actor project seeds)

  -- A role found by its name is there under its id.
  named-HasRole :
      (project : ℕ) (name : Text) (roles : List Role) (r : Role)
      → find (has_name project name) roles ≡ some r
      → any (is_role r.id project) roles ≡ true
  named-HasRole project name [] r e = cc
  named-HasRole project name (x ∷ roles) r e = ground (arith, named-HasRole project name roles r)

  place_creator-kept :
      (actor : Actor) (project : ℕ) → Triple P (place_creator actor project) (λ _ d. P d)
  unfolding place_creator get_role_by_name
  place_creator-kept actor project =
      bind
        (read_one_rule (get_role_by_name project (codes "admin"))
          (λ d. find (has_name project (codes "admin")) d.roles) (λ now d. refl))
        (λ admin.
          bind
            (strengthen (λ d h. (h.0, named-HasRole project (codes "admin") d.roles admin h.1))
              (kept_where (upsert_project_member _) (k.placed _)))
            (λ _. weaken (pure_rule tt) (λ _ d h. h.0)))

  create_body-kept :
      (actor : Actor) (name : Text) (seeds : Seeds)
      → Triple P (create_body actor name seeds) (λ _ d. P d)
  unfolding create_body
  create_body-kept actor name seeds =
      bind (kept (create_project actor.org_id name actor.user_id) (k.project_created _ _ _)) (λ p.
        bind (make_roles-kept actor p.id seeds) (λ _.
          bind (kept (create_default_approval_rule actor.org_id actor.user_id) (k.rule_created _ _))
            (λ _.
              bind (place_creator-kept actor p.id)
                (λ _. bind (emit-kept k _ _ _ _) (λ _. weaken (pure_rule p) (λ _ d h. h.0))))))

  pub create-Keeps :
      (actor : Actor) (name : Text) (seeds : Seeds) → Keeps P (Projects.create actor name seeds)
  unfolding Projects.create
  create-Keeps actor name seeds =
      Keeps-bind (Keeps-exec_tx (create_body-kept actor name seeds)) (λ _. Keeps-pure _)

  pub update-Keeps :
      (actor : Actor) (id : ℕ) (name : Text) → Keeps P (Projects.update actor id name)
  unfolding Projects.update update_body
  update-Keeps actor id name =
      Keeps-bind
        (Keeps-map_error or_not_found _ (
          Keeps-exec_tx (
            bind (kept (update_project_name id actor.org_id name) (k.project_renamed _ _ _))
              (λ p. bind (emit-kept k _ _ _ _) (λ _. weaken (pure_rule p) (λ _ d h. h.0))))))
        (λ _. Keeps-pure _)

  pub archive-Keeps : (actor : Actor) (id : ℕ) → Keeps P (Projects.archive actor id)
  unfolding Projects.archive archive_body
  archive-Keeps actor id =
      Keeps-bind
        (Keeps-map_error or_not_found _ (
          Keeps-exec_tx (
            bind (kept (archive_project id actor.org_id) (k.archived _ _))
              (λ p. bind (emit-kept k _ _ _ _) (λ _. weaken (pure_rule p) (λ _ d h. h.0))))))
        (λ _. Keeps-pure _)

  pub unarchive-Keeps : (actor : Actor) (id : ℕ) → Keeps P (Projects.unarchive actor id)
  unfolding Projects.unarchive unarchive_body
  unarchive-Keeps actor id =
      Keeps-bind
        (Keeps-map_error or_not_found _ (
          Keeps-exec_tx (
            bind (kept (unarchive_project id actor.org_id) (k.unarchived _ _))
              (λ p. bind (emit-kept k _ _ _ _) (λ _. weaken (pure_rule p) (λ _ d h. h.0))))))
        (λ _. Keeps-pure _)

  pub delete-Keeps : (actor : Actor) (id : ℕ) → Keeps P (Projects.delete actor id)
  unfolding Projects.delete delete_body lock_project_for_delete count_project_transactions
      count_project_documents
  delete-Keeps actor id = Keeps-map_error or_not_found _ (
      Keeps-exec_tx (
        bind (kept (lock_project_for_delete id actor.org_id) (λ now d h. h)) (λ _.
          bind (kept (count_project_transactions id) (λ now d h. h)) (λ n.
            bind (weaken (raise_if_rule (ltb 0 n) project_has_transactions) (λ _ d h. h.0)) (λ _.
              bind (kept (count_project_documents id) (λ now d h. h)) (λ n.
                bind (weaken (raise_if_rule (ltb 0 n) project_has_documents) (λ _ d h. h.0)) (λ _.
                  bind (kept (soft_delete_project id actor.org_id) (k.project_deleted _ _)) (λ rows.
                    bind (weaken (raise_if_rule (not (ltb 0 rows)) not_found) (λ _ d h. h.0))
                      (λ _. emit-kept k _ _ _ _)))))))))
