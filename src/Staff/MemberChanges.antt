-- ===== src/Staff/MemberChanges.antt =====
-- What the requests on placements keep, by what their statements keep.
use expense.Base.{ℕ, refl, not, ltb, List, [], ◌∷◌, find, is_some, any-find}
use expense.Store.World.{Db, run, not_found, project_archived, project_member_not_active}
use expense.Store.Hoare.{
  Triple, bind, weaken, read_one_rule, map_error_rule, raise_if_rule, pure_rule,
}
use expense.Store.Keeps.{
  Keeps, Keeps-bind, Keeps-run, Keeps-map_error, Keeps-raise_if, Keeps-pure, Keeps-ask,
  Keeps-exec_tx,
}
use expense.Store.Frames.{of_keeps}
use expense.Store.Leads.{Leads-exec_tx, Leads-bind, Leads-map_error, Keeps-then}
use expense.Store.Roles.{is_role, get_role}
use expense.Store.Projects.{
  delete_project_member, delete_project_members_for_organization_user, get_project,
  lock_project_for_delete, upsert_project_member,
}
use expense.Authz.{Actor, is_member_active_strict}
use expense.Approval.Submit.{or_not_found}
use expense.Approval.Valid.Access.{available-Keeps}
use expense.Projects.{find_project}
use expense.Projects.Members.{
  PlaceMemberInput, check_place, or_member_changed, placement_of, place_body, place_member,
  remove_body, remove_member, announce_removals, clear_body, clear_organization_member_placements,
}
use expense.Staff.Kept.{StaffKept, HasRole, kept_where, kept}
use expense.Staff.RoleChanges.{emit-kept}

find_project-Keeps : {P : Db → Type 0} (actor : Actor) (id : ℕ) → Keeps P (find_project actor id)
unfolding find_project get_project
find_project-Keeps actor id =
    Keeps-map_error or_not_found _ (Keeps-run (get_project id actor.org_id) (λ now d h. h))

strict-Keeps :
    {P : Db → Type 0} (actor : Actor) (user : ℕ) → Keeps P (is_member_active_strict actor user)
unfolding is_member_active_strict
strict-Keeps actor user = Keeps-bind (Keeps-ask _) (λ answer. available-Keeps answer)

pub check_place-Keeps :
    {P : Db → Type 0} (actor : Actor) (project : ℕ) (input : PlaceMemberInput)
    → Keeps P (check_place actor project input)
unfolding check_place get_role
check_place-Keeps actor project input = Keeps-bind (find_project-Keeps actor project) (λ p.
    Keeps-bind (Keeps-raise_if (is_some p.archived_at) project_archived) (λ _.
      Keeps-bind (strict-Keeps actor input.user_id) (λ active.
        Keeps-bind (Keeps-raise_if (not active) project_member_not_active) (λ _.
          Keeps-map_error or_not_found _
            (Keeps-run (get_role input.role_id project) (λ now d h. h))))))

-- The checks find the role that the member is to have.
pub check_place-rule :
    {P : Db → Type 0} (actor : Actor) (project : ℕ) (input : PlaceMemberInput)
    → Triple P (check_place actor project input) (λ _ d. P d × HasRole input.role_id project d)
unfolding check_place get_role
check_place-rule actor project input = bind (of_keeps (find_project-Keeps actor project)) (λ p.
    bind (of_keeps (Keeps-raise_if (is_some p.archived_at) project_archived)) (λ _.
      bind (of_keeps (strict-Keeps actor input.user_id)) (λ active.
        bind (of_keeps (Keeps-raise_if (not active) project_member_not_active)) (λ _.
          map_error_rule or_not_found (run (get_role input.role_id project)) (
            weaken
              (read_one_rule (get_role input.role_id project)
                (λ d. find (is_role input.role_id project) d.roles) (λ now d. refl))
              (λ r d h. (h.0, any-find (is_role input.role_id project) d.roles r h.1)))))))

module _ {P : Db → Type 0} (k : StaffKept P) where
  place_body-kept :
      (actor : Actor) (project : ℕ) (input : PlaceMemberInput)
      → Triple
          (λ d. P d × HasRole input.role_id project d)
          (place_body actor project input)
          (λ _ d. P d)
  unfolding place_body lock_project_for_delete
  place_body-kept actor project input =
      bind
        (kept {P = λ d. P d × HasRole input.role_id project d}
          (lock_project_for_delete project actor.org_id) (λ now d h. h))
        (λ locked.
          bind (of_keeps (Keeps-raise_if (is_some locked.archived_at) project_archived)) (λ _.
            bind
              (map_error_rule or_member_changed _ (
                kept_where (upsert_project_member (placement_of actor project input))
                  (k.placed (placement_of actor project input))))
              (λ m. bind (emit-kept k _ _ _ _) (λ _. weaken (pure_rule m) (λ _ d h. h.0)))))

  pub place_member-Keeps :
      (actor : Actor) (project : ℕ) (input : PlaceMemberInput)
      → Keeps P (place_member actor project input)
  unfolding place_member
  place_member-Keeps actor project input =
      Keeps-then (check_place-rule actor project input) (check_place-Keeps actor project input)
        (λ role.
          Leads-bind
            (Leads-map_error or_not_found _
              (Leads-exec_tx (λ d h. h.0) (place_body-kept actor project input)))
            (λ m. Keeps-pure _))

  pub remove_member-Keeps :
      (actor : Actor) (project user : ℕ) → Keeps P (remove_member actor project user)
  unfolding remove_member remove_body lock_project_for_delete
  remove_member-Keeps actor project user = Keeps-map_error or_not_found _ (
      Keeps-exec_tx (
        bind (kept (lock_project_for_delete project actor.org_id) (λ now d h. h)) (λ _.
          bind (kept (delete_project_member project user) (k.removed project user)) (λ rows.
            bind (weaken (raise_if_rule (not (ltb 0 rows)) not_found) (λ _ d h. h.0))
              (λ _. emit-kept k _ _ _ _)))))

  announce_removals-kept :
      (org user : ℕ) (projects : List ℕ)
      → Triple P (announce_removals org user projects) (λ _ d. P d)
  unfolding announce_removals
  announce_removals-kept org user [] = weaken (pure_rule tt) (λ _ d h. h.0)
  announce_removals-kept org user (project ∷ projects) =
      bind (emit-kept k _ _ _ _) (λ _. announce_removals-kept org user projects)

  pub clear-Keeps :
      (actor : Actor) (user : ℕ) → Keeps P (clear_organization_member_placements actor user)
  unfolding clear_organization_member_placements clear_body
  clear-Keeps actor user =
      Keeps-bind
        (Keeps-exec_tx (
          bind
            (kept (delete_project_members_for_organization_user actor.org_id user)
              (k.cleared actor.org_id user))
            (λ projects.
              bind (announce_removals-kept actor.org_id user projects)
                (λ _. weaken (pure_rule projects) (λ _ d h. h.0)))))
        (λ _. Keeps-pure _)
