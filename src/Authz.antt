-- ===== src/Authz.antt =====
-- internal/authz/authz.go: what an actor may do, by the identity service and the local placements.
use expense.Base.{
  ℕ, Bool, true, not, ◌||◌, Option, none, some, List, Text, codes, text_eq, any, length, ltb,
}
use expense.Store.World.{
  identity_unavailable, org_deleted, org_frozen, forbidden, service_not_allowed, M, pure, raise,
  raise_if, WriteAccessLease, ◌>>=◌, ◌>>◌, run, ask,
}
use expense.Store.Access.{get_user_project_actions, list_active_placements_with_action}

pub record Actor : Type 0 where
  pub user_id : ℕ
  pub org_id : ℕ
  pub role : Text

-- constant/action.go.
abbrev pub transaction_view : Text
transaction_view = codes "transaction.view"

-- An error of the identity service is ErrIdentityUnavailable.
abbrev pub available : {A : Type 0} → Option A → M A
available none = raise identity_unavailable
available (some a) = pure a

abbrev pub is_admin_role : Text → Bool
is_admin_role role = text_eq role (codes "owner") || text_eq role (codes "admin")

unfoldable pub is_admin : Actor → M Bool
is_admin a = do
  answer ← ask (λ env t. env.identity.get_member_role t a.org_id a.user_id)
  role ← available answer
  pure (is_admin_role role)

unfoldable pub check_org_write : Actor → M (Unit {0})
check_org_write a = do
  answer ← ask (λ env t. env.identity.get_org_status t a.org_id)
  status ← available answer
  raise_if status.1 org_deleted
  raise_if status.0 org_frozen

unfoldable pub check_admin : Actor → M (Unit {0})
unfolding is_admin
check_admin a = do admin ← is_admin a; raise_if (not admin) forbidden

unfoldable pub can : Actor → (project_id : ℕ) (action : Text) → M (Unit {0})
can a project action = do
  actions ← run (get_user_project_actions project a.user_id)
  raise_if (not (any (λ known. text_eq known action) actions)) forbidden

unfoldable pub placed_project_ids : Actor → (action : Text) → M (List ℕ)
placed_project_ids a action = run (list_active_placements_with_action a.org_id a.user_id action)

unfoldable pub is_placed_in_project : Actor → (project_id : ℕ) → M Bool
is_placed_in_project a project = do
  actions ← run (get_user_project_actions project a.user_id)
  pure (ltb 0 (length actions))

unfoldable pub is_member_active : Actor → (user_id : ℕ) → M Bool
is_member_active a user = do
  answer ← ask (λ env t. env.identity.is_member_active t a.org_id user)
  available answer

unfoldable pub is_service_allowed : Actor → M Bool
is_service_allowed a = do
  answer ← ask (λ env t. env.identity.is_service_access_allowed t a.user_id a.org_id)
  allowed ← available answer
  raise_if (not allowed) service_not_allowed
  pure true

-- The client is one that checks strictly (contract.StrictMembershipChecker).
unfoldable pub is_member_active_strict : Actor → (user_id : ℕ) → M Bool
is_member_active_strict a user = do
  answer ← ask (λ env t. env.identity.is_member_active_strict t a.org_id user)
  available answer

-- The guards of a lease; a lease that fails one is closed.
abbrev pub check_lease : Option WriteAccessLease → M WriteAccessLease
check_lease none = raise identity_unavailable
check_lease (some lease) = do
  raise_if (not lease.is_held) identity_unavailable
  raise_if lease.is_deleted org_deleted
  raise_if lease.is_frozen org_frozen
  raise_if (not lease.member_active) forbidden
  raise_if (not lease.service_allowed) service_not_allowed
  pure lease

unfoldable pub hold_expense_write_access : Actor → M WriteAccessLease
hold_expense_write_access a = do
  answer ← ask (λ env t. env.identity.hold_expense_write_access t a.org_id a.user_id)
  check_lease answer
