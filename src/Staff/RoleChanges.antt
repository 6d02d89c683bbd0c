-- ===== src/Staff/RoleChanges.antt =====
-- What the requests on roles keep, by what their statements keep.
use expense.Base.{
  ℕ, ◌≡◌, refl, inl, inr, arith, not, ◌==◌, ltb, Option, none, some, List, [], ◌∷◌, Text,
  Bool-cases, find, count,
}
use expense.Store.Rows.{Role, ProjectMember, Topic, Payload}
use expense.Store.World.{
  Db, Env, World, Result, ok, err, run, exec_tx, is_unique_violation, is_no_rows, not_found,
  role_in_use, invalid_action, system_role_locked,
}
use expense.Store.Hoare.{
  Succeeds, Triple, bind, weaken, strengthen, read_rule, read_one_rule, map_error_rule,
  raise_if_rule, pure_rule,
}
use expense.Store.Keeps.{
  Keeps, Keeps-bind, Keeps-run, Keeps-map_error, Keeps-raise_if, Keeps-pure, Keeps-exec_tx,
}
use expense.Store.Frames.{of_keeps}
use expense.Store.Leads.{Leads-exec_tx, Leads-then, Leads-bind, Keeps-then}
use expense.Store.Roles.{
  NewRole, is_role, add_role_permission, count_role_usage, create_role, delete_role_permissions,
  get_role, get_role_by_name, list_role_actions, soft_delete_role, update_role_name,
}
use expense.Store.Rules.{create_default_approval_rule}
use expense.Store.Outbox.{create_outbox_event, emit}
use expense.Authz.{Actor}
use expense.Approval.Submit.{or_not_found}
use expense.Roles.{
  Seeds, viewer, of_result, with_actions, add_permissions, or_lookup, create_or_get_role,
  seed_roles, seed_body, unless_seeded, ensure_seed, check_actions, untaken, check_name_free,
  RoleInput, create_body, find_role, get, RoleChange, normalize_role_name, normalize_option,
  check_new_actions, or_name_taken, rename, replace_actions, update_body, check_unlocked,
  delete_body, is_valid_action,
}
use expense.Roles
use expense.Staff.Kept.{StaffKept, Unlocked, Unused, kept_where, kept}

module _ {P : Db → Type 0} where
  with_actions-Keeps : (r : Role) → Keeps P (with_actions r)
  unfolding with_actions list_role_actions
  with_actions-Keeps r =
      Keeps-bind (Keeps-run (list_role_actions r.id) (λ now d h. h)) (λ actions. Keeps-pure _)

  find_role-rule :
      (project id : ℕ)
      → Triple P (find_role project id) (λ r d. P d × (find (is_role id project) d.roles ≡ some r))
  unfolding find_role get_role
  find_role-rule project id =
      map_error_rule or_not_found (run (get_role id project)) (
        read_one_rule (get_role id project) (λ d. find (is_role id project) d.roles)
          (λ now d. refl))

  find_role-Keeps : (project id : ℕ) → Keeps P (find_role project id)
  unfolding find_role get_role
  find_role-Keeps project id =
      Keeps-map_error or_not_found (run (get_role id project))
        (Keeps-run (get_role id project) (λ now d h. h))

  pub check_unlocked-rule :
      (project id : ℕ) → Triple P (check_unlocked project id) (λ _ d. P d × Unlocked id project d)
  unfolding check_unlocked
  check_unlocked-rule project id = bind (find_role-rule project id) (λ r.
      weaken (raise_if_rule r.is_system system_role_locked) (λ _ d h. (h.0.0, (r, h.0.1, h.1))))

  check_unlocked-Keeps : (project id : ℕ) → Keeps P (check_unlocked project id)
  unfolding check_unlocked
  check_unlocked-Keeps project id =
      Keeps-bind (find_role-Keeps project id) (λ r. Keeps-raise_if r.is_system system_role_locked)

  get-Keeps : (project id : ℕ) → Keeps P (get project id)
  unfolding get
  get-Keeps project id = Keeps-bind (find_role-Keeps project id) (λ r. with_actions-Keeps r)

  usage-Keeps : (id : ℕ) → Keeps P (run (count_role_usage id))
  unfolding count_role_usage
  usage-Keeps id = Keeps-run (count_role_usage id) (λ now d h. h)

  pub usage-rule :
      (id : ℕ)
      → Triple P
          (run (count_role_usage id))
          (λ n d. P d × (n ≡ count (λ (m : ProjectMember). m.role_id == id) d.members))
  unfolding count_role_usage
  usage-rule id = read_rule (count_role_usage id) _ (λ now d. refl)

module _ {P : Db → Type 0} (k : StaffKept P) where
  pub emit-kept :
      (kind : Text) (aggregate : ℕ) (topic : Topic) (payload : Payload)
      → Triple P (emit kind aggregate topic payload) (λ _ d. P d)
  unfolding emit
  emit-kept kind aggregate topic payload =
      kept (create_outbox_event kind aggregate topic payload)
        (k.emitted kind aggregate topic payload)

  pub add_permissions-kept :
      (role : ℕ) (actions : List Text) → Triple P (add_permissions role actions) (λ _ d. P d)
  unfolding add_permissions
  add_permissions-kept role [] = weaken (pure_rule tt) (λ _ d h. h.0)
  add_permissions-kept role (a ∷ actions) =
      bind (kept (add_role_permission role a) (k.permission_added role a))
        (λ _. add_permissions-kept role actions)

  Succeeds-or_lookup :
      (p : NewRole) (r : Result Role × World) (env : Env) (w : World)
      → Succeeds (λ _ d. P d) r
      → Succeeds (λ _ d. P d) (or_lookup p r env w)
  unfolding run
  Succeeds-or_lookup p (ok r, w') env w h = h
  Succeeds-or_lookup p (err e, w') env w h = elim (Bool-cases (is_unique_violation e)) [
    | inl f ↦ elim (Bool-cases (env.fails w'.tick)) [ inl g ↦ rw (f, g) tt | inr g ↦ rw (f, g) tt ]
    | inr f ↦ rw f tt
  ]

  create_or_get_role-kept : (p : NewRole) → Triple P (create_or_get_role p) (λ _ d. P d)
  unfolding create_or_get_role
  create_or_get_role-kept p = record {
    holds = λ env w h.
        Succeeds-or_lookup p (run (create_role p) env w) env w
          ((kept (create_role p) (k.role_created p)).holds env w h);
  }

  seed_roles-kept :
      (actor : Actor) (project : ℕ) (seeds : Seeds)
      → Triple P (seed_roles actor project seeds) (λ _ d. P d)
  unfolding seed_roles
  seed_roles-kept actor project [] = weaken (pure_rule tt) (λ _ d h. h.0)
  seed_roles-kept actor project ((name, actions) ∷ seeds) =
      bind (bind (create_or_get_role-kept _) (λ r. add_permissions-kept r.id actions))
        (λ _. seed_roles-kept actor project seeds)

  seed_body-kept :
      (actor : Actor) (project : ℕ) (seeds : Seeds)
      → Triple P (seed_body actor project seeds) (λ _ d. P d)
  unfolding seed_body
  seed_body-kept actor project seeds = bind (seed_roles-kept actor project seeds) (λ _.
      kept (create_default_approval_rule actor.org_id actor.user_id)
        (k.rule_created actor.org_id actor.user_id))

  unless_seeded-kept :
      (actor : Actor) (project : ℕ) (seeds : Seeds) (r : Result Role × World) (env : Env)
      → P r.1.db
      → P (unless_seeded (exec_tx (seed_body actor project seeds)) r env).1.db
  unless_seeded-kept actor project seeds (ok r, w) env h = h
  unless_seeded-kept actor project seeds (err e, w) env h = elim (Bool-cases (is_no_rows e)) [
    | inl f ↦ rw f (let tx = Keeps-exec_tx (seed_body-kept actor project seeds) in tx.holds env w h)
    | inr f ↦ rw f h
  ]

  pub ensure_seed-Keeps :
      (actor : Actor) (project : ℕ) (seeds : Seeds) → Keeps P (ensure_seed actor project seeds)
  unfolding ensure_seed get_role_by_name
  ensure_seed-Keeps actor project seeds = record {
    holds = λ env w h.
        let lookup = Keeps-run {P = P} (get_role_by_name project viewer) (λ now d p. p) in
        unless_seeded-kept actor project seeds (run (get_role_by_name project viewer) env w) env
          (lookup.holds env w h);
  }

  untaken-kept : (r : Result Role × World) → P r.1.db → P (untaken r).1.db
  untaken-kept (ok r, w) h = h
  untaken-kept (err e, w) h = h

  check_name_free-kept :
      (project : ℕ) (name : Text) → Triple P (check_name_free project name) (λ _ d. P d)
  unfolding check_name_free get_role_by_name
  check_name_free-kept project name = of_keeps (record {
    holds = λ env w h.
        let lookup = Keeps-run {P = P} (get_role_by_name project name) (λ now d p. p) in
        untaken-kept (run (get_role_by_name project name) env w) (lookup.holds env w h);
  })

  create_body-kept :
      (actor : Actor) (project : ℕ) (input : RoleInput)
      → Triple P (create_body actor project input) (λ _ d. P d)
  unfolding create_body
  create_body-kept actor project input = bind (check_name_free-kept project input.name) (λ _.
      bind (kept (create_role _) (k.role_created _)) (λ r.
        bind (add_permissions-kept r.id input.actions)
          (λ _. bind (emit-kept _ _ _ _) (λ _. weaken (pure_rule r) (λ _ d h. h.0)))))

  of_result-Keeps : {A : Type 0} (r : Result A) → Keeps P (of_result r)
  of_result-Keeps r = record { holds = λ env w h. h }

  pub create-Keeps :
      (actor : Actor) (project : ℕ) (input : RoleInput) → Keeps P (Roles.create actor project input)
  unfolding Roles.create
  create-Keeps actor project input =
      Keeps-bind (of_result-Keeps (normalize_role_name input.name)) (λ name.
        Keeps-bind (Keeps-raise_if _ invalid_action) (λ _.
          Keeps-bind (Keeps-exec_tx (create_body-kept actor project (record input { name = name })))
            (λ created. with_actions-Keeps created)))

  rename-kept :
      (project id : ℕ) (name : Option Text)
      → Triple (λ d. P d × Unlocked id project d) (rename project id name) (λ _ d. P d)
  rename-kept project id none = weaken (pure_rule tt) (λ _ d h. h.0.0)
  rename-kept project id (some name) =
      bind
        (map_error_rule or_name_taken (run (update_role_name id project name))
          (kept_where (update_role_name id project name) (k.role_renamed id project name)))
        (λ _. weaken (pure_rule tt) (λ _ d h. h.0))

  replace_actions-kept :
      (id : ℕ) (actions : Option (List Text)) → Triple P (replace_actions id actions) (λ _ d. P d)
  replace_actions-kept id none = weaken (pure_rule tt) (λ _ d h. h.0)
  replace_actions-kept id (some actions) =
      bind (kept (delete_role_permissions id) (k.permissions_deleted id))
        (λ _. add_permissions-kept id actions)

  update_body-kept :
      (actor : Actor) (project id : ℕ) (change : RoleChange)
      → Triple (λ d. P d × Unlocked id project d) (update_body actor project id change) (λ _ d. P d)
  unfolding update_body
  update_body-kept actor project id change =
      bind (rename-kept project id change.name)
        (λ _. bind (replace_actions-kept id change.actions) (λ _. emit-kept _ _ _ _))

  check_new_actions-Keeps : (actions : Option (List Text)) → Keeps P (check_new_actions actions)
  check_new_actions-Keeps none = Keeps-pure tt
  check_new_actions-Keeps (some actions) = Keeps-raise_if _ invalid_action

  pub update-Keeps :
      (actor : Actor) (project id : ℕ) (change : RoleChange)
      → Keeps P (Roles.update actor project id change)
  unfolding Roles.update
  update-Keeps actor project id change =
      Keeps-bind (of_result-Keeps (normalize_option change.name)) (λ name.
        Keeps-bind (check_new_actions-Keeps change.actions) (λ _.
          Keeps-then (check_unlocked-rule project id) (check_unlocked-Keeps project id) (λ _.
            Leads-bind
              (Leads-exec_tx (λ d h. h.0)
                (update_body-kept actor project id (record change { name = name })))
              (λ _. get-Keeps project id))))

  delete_body-kept :
      (actor : Actor) (project id : ℕ)
      → Triple
          (λ d. P d × (Unlocked id project d × Unused id d))
          (delete_body actor project id)
          (λ _ d. P d)
  unfolding delete_body
  delete_body-kept actor project id =
      bind
        (kept_where {C = λ d. Unlocked id project d × Unused id d} (soft_delete_role id project)
          (λ now d c h. k.role_deleted id project now d c.0 c.1 h))
        (λ rows.
          bind (weaken (raise_if_rule (not (ltb 0 rows)) not_found) (λ _ d h. h.0))
            (λ _. emit-kept _ _ _ _))

  pub delete-Keeps : (actor : Actor) (project id : ℕ) → Keeps P (Roles.delete actor project id)
  unfolding Roles.delete
  delete-Keeps actor project id =
      Keeps-then (check_unlocked-rule project id) (check_unlocked-Keeps project id) (λ _.
        Leads-then (usage-rule id) (usage-Keeps id) (λ d h. h.0)
          (λ usage.
            Leads-then (raise_if_rule (ltb 0 usage) role_in_use) (Keeps-raise_if _ _) (λ d h. h.0.0)
              (λ _.
                Leads-exec_tx (λ d h. h.0.0.0)
                  (strengthen (λ d h. (h.0.0.0, (h.0.0.1, ground (arith, h))))
                    (delete_body-kept actor project id)))))
