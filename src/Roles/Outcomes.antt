-- ===== src/Roles/Outcomes.antt =====
-- What a deletion of a role that succeeds found in the tables.
use expense.Base.{ℕ, ◌≡◌, refl, subst, arith, not, ltb, some, none, find, update, List, [], ◌∷◌}
use expense.Store.Rows.{Role}
use expense.Store.World.{Db, Env, World, ok, role_in_use, not_found}
use expense.Store.Hoare.{Triple, bind, weaken, run_rule, raise_if_rule, tx_rule}
use expense.Store.Frames.{successful}
use expense.Store.Roles.{is_role, soft_delete_role}
use expense.Store.Outbox.{emit, create_outbox_event}
use expense.Authz.{Actor}
use expense.Roles.{check_unlocked, delete_body}
use expense.Roles
use expense.Staff.Kept.{Unlocked, Unused}
use expense.Staff.RoleChanges.{check_unlocked-rule, usage-rule}

find-update_closed :
    (id project now : ℕ) (rs : List Role)
    → find
        (is_role id project)
        (update (is_role id project) (λ r. record r { deleted_at = some now; updated_at = now }) rs)
      ≡ none
find-update_closed id project now [] = refl
find-update_closed id project now (r ∷ rs) = ground (arith, find-update_closed id project now rs)

-- What the deletion found at the start, and leaves.
abbrev Deleted : (project id : ℕ) → Db → Db → Type 0
Deleted project id start d =
    (Unlocked id project start × Unused id start) × (find (is_role id project) d.roles ≡ none)

delete-rule :
    (actor : Actor) (project id : ℕ) (start : Db)
    → Triple (λ d. d ≡ start) (Roles.delete actor project id) (λ _ d. Deleted project id start d)
unfolding Roles.delete delete_body soft_delete_role emit create_outbox_event
delete-rule actor project id start = bind (check_unlocked-rule project id) (λ _.
    bind (usage-rule id) (λ usage. bind (raise_if_rule (ltb 0 usage) role_in_use) (λ _. tx_rule (
      bind
        (run_rule {Q = λ _ d. Deleted project id start d} (soft_delete_role id project) (λ now d h.
          (
            (
              subst (Unlocked id project) h.0.0.0 h.0.0.1,
              subst (Unused id) h.0.0.0 (ground (arith, h.0.1, h.1)),
            ),
            find-update_closed id project now d.roles,
          )))
        (λ rows.
          bind (weaken (raise_if_rule (not (ltb 0 rows)) not_found) (λ _ d h. h.0))
            (λ _. run_rule (create_outbox_event _ _ _ _) (λ now d h. h)))))))

-- A role that `Delete` deletes was there and no system role, nobody was placed with it, and
-- afterwards it is gone.
pub delete_only-Unused :
    (actor : Actor) (project id : ℕ) (env : Env) (w : World)
    → (Roles.delete actor project id env w).0 ≡ ok tt
    → (Unlocked id project w.db × Unused id w.db)
      × (find (is_role id project) (Roles.delete actor project id env w).1.db.roles ≡ none)
delete_only-Unused actor project id env w e =
    successful env w tt (delete-rule actor project id w.db) refl e
