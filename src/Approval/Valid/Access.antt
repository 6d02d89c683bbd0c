-- ===== src/Approval/Valid/Access.antt =====
-- The questions to internal/authz/authz.go leave the database alone.
use expense.Base.{ℕ, not, Option, none, some, Text, text_eq, any}
use expense.Store.World.{Db, identity_unavailable, org_deleted, org_frozen, forbidden}
use expense.Store.Keeps.{
  Keeps, Keeps-bind, Keeps-raise_if, Keeps-raise, Keeps-pure, Keeps-ask, Keeps-run,
}
use expense.Store.Access.{get_user_project_actions}
use expense.Authz.{Actor, available, is_admin, is_admin_role, check_admin, check_org_write, can}

pub available-Keeps : {A : Type 0} {P : Db → Type 0} (o : Option A) → Keeps P (available o)
available-Keeps none = Keeps-raise identity_unavailable
available-Keeps (some a) = Keeps-pure a

pub check_org_write-Keeps : {P : Db → Type 0} (actor : Actor) → Keeps P (check_org_write actor)
unfolding check_org_write
check_org_write-Keeps actor = Keeps-bind (Keeps-ask _) (λ answer.
    Keeps-bind (available-Keeps answer) (λ status.
      Keeps-bind (Keeps-raise_if status.1 org_deleted) (λ _. Keeps-raise_if status.0 org_frozen)))

pub check_admin-Keeps : {P : Db → Type 0} (actor : Actor) → Keeps P (check_admin actor)
unfolding check_admin is_admin
check_admin-Keeps actor =
    Keeps-bind
      (Keeps-bind (Keeps-ask _)
        (λ answer. Keeps-bind (available-Keeps answer) (λ role. Keeps-pure (is_admin_role role))))
      (λ admin. Keeps-raise_if (not admin) forbidden)

pub can-Keeps :
    {P : Db → Type 0} (actor : Actor) (project : ℕ) (action : Text)
    → Keeps P (can actor project action)
unfolding can get_user_project_actions
can-Keeps actor project action =
    Keeps-bind (Keeps-run (get_user_project_actions project actor.user_id) (λ now d p. p))
      (λ actions. Keeps-raise_if (not (any (λ known. text_eq known action) actions)) forbidden)
