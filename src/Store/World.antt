-- ===== src/Store/World.antt =====
-- What a service call runs on: the database, the identity service, and the calls that can fail.
-- Every statement and every call of another service may fail, when the environment says so.
use expense.Base.{ℕ, suc, Bool, true, false, Option, none, some, List, Text, if◌then◌else◌}
use expense.Store.Rows.{
  Transaction, TransactionItem, Approval, ApprovalDecision, ApprovalRule, Project, ProjectMember,
  Role, RolePermission, OutboxEvent, CreatedEvent,
}
use expense.Store.DocumentRows.{Document}

-- The tables. `next_id` is what `uuidv7()` gives next: an id is given once.
pub record Db : Type 0 where
  pub transactions : List Transaction
  pub items : List TransactionItem
  pub approvals : List Approval
  pub decisions : List ApprovalDecision
  pub rules : List ApprovalRule
  pub documents : List Document
  pub projects : List Project
  pub members : List ProjectMember
  pub roles : List Role
  pub permissions : List RolePermission
  pub outbox : List OutboxEvent
  pub next_id : ℕ

-- The errors of internal/service/errors.go that the modelled services return, the two of the
-- driver that they tell apart, and `failure` for any other.
pub data Error : Type 0 where
  unauthenticated forbidden not_found conflict internal : Error
  approver_still_assigned approver_already_exists approver_not_member : Error
  last_approval_rule transaction_locked invalid_transition no_approver_resolved : Error
  not_your_turn project_has_transactions project_archived project_member_changed : Error
  project_member_not_active idempotency_key_required idempotency_key_reused : Error
  identity_unavailable too_many_items item_invalid currency_invalid category_invalid : Error
  invalid_amount invalid_action role_name_taken system_role_locked role_in_use : Error
  submit_validation org_frozen org_deleted service_not_allowed : Error
  transaction_changed role_name_invalid project_has_documents write_access_denied : Error
  no_rows unique_violation : Error
  failure : Error

-- service.IsUniqueViolation, and errors.Is for the driver's ErrNoRows and for ErrForbidden.
abbrev pub is_unique_violation : Error → Bool
is_unique_violation Error.unique_violation = true
is_unique_violation e = false

abbrev pub is_no_rows : Error → Bool
is_no_rows Error.no_rows = true
is_no_rows e = false

abbrev pub is_forbidden : Error → Bool
is_forbidden Error.forbidden = true
is_forbidden e = false

pub data Result (A : Type 0) : Type 0 where
  ok : A → Result A
  err : Error → Result A

-- contract/identity.go.
pub record UserInfo : Type 0 where
  pub user_id : ℕ
  pub name : Text
  pub email : Text
  pub role : Text
  pub is_active : Bool

-- ExpenseWriteAccessLease: `is_held` says that both its Context and its Release are there.
pub record WriteAccessLease : Type 0 where
  pub is_held : Bool
  pub member_active : Bool
  pub service_allowed : Bool
  pub is_frozen : Bool
  pub is_deleted : Bool

-- The part of contract.IdentityClient that the modelled services call; the first argument is the
-- moment of the call, `none` an error.
pub record IdentityClient : Type 0 where
  pub is_member_active : ℕ → (org_id user_id : ℕ) → Option Bool
  pub get_member_role : ℕ → (org_id user_id : ℕ) → Option Text
  pub get_users_info : ℕ → List (ℕ × ℕ) → Option (List UserInfo)
  pub get_org_status : ℕ → (org_id : ℕ) → Option (Bool × Bool)
  pub is_service_access_allowed : ℕ → (user_id org_id : ℕ) → Option Bool
  pub is_member_active_strict : ℕ → (org_id user_id : ℕ) → Option Bool
  pub hold_expense_write_access : ℕ → (org_id user_id : ℕ) → Option WriteAccessLease

-- `fails n` says whether the n-th statement fails, `now n` is the clock there; `validate` is the
-- notification contract's `CreatedEvent.Validate`.
pub record Env : Type 0 where
  pub fails : ℕ → Bool
  pub now : ℕ → ℕ
  pub identity : IdentityClient
  pub validate : CreatedEvent → Bool

-- `tick` counts the calls made. `tx_time` is the time at which the open database transaction
-- began, which is what `now()` gives inside it.
pub record World : Type 0 where
  pub db : Db
  pub tick : ℕ
  pub tx_time : Option ℕ

abbrev pub M : Type 0 → Type 0
M A = Env → World → Result A × World

abbrev pub pure : {A : Type 0} → A → M A
pure a env w = (ok a, w)

abbrev pub raise : {A : Type 0} → Error → M A
raise e env w = (err e, w)

infixl 5 ◌>>=◌ ◌>>◌
abbrev pub ◌>>=◌ : {A B : Type 0} → M A → (A → M B) → M B
◌>>=◌ m f env w = let (r, w') = m env w in elim r [ ok a ↦ f a env w' | err e ↦ (err e, w') ]

abbrev pub ◌>>◌ : {A B : Type 0} → M A → M B → M B
m >> k = m >>= λ _. k

-- `if c { return e }`.
abbrev pub raise_if : Bool → Error → M (Unit {0})
raise_if c e env w = (if c then err e else ok tt, w)

-- A statement of SQL: its effect is a function of the clock and of the tables.
abbrev pub Statement : Type 0 → Type 0
Statement A = ℕ → Db → Result A × Db

-- A result of `:one`: no row is the driver's ErrNoRows.
abbrev pub one : {A : Type 0} → Option A → Result A
one none = err no_rows
one (some a) = ok a

abbrev pub clock : Env → World → ℕ
clock env w = elim w.tx_time [ none ↦ env.now w.tick | some t ↦ t ]

unfoldable pub run : {A : Type 0} → Statement A → M A
run s env w =
    let (r, d) = s (clock env w) w.db in
    if env.fails w.tick
    then (err failure, record w { tick = suc w.tick })
    else (r, record w { db = d; tick = suc w.tick })

-- A call of another service, which leaves the database alone.
unfoldable pub ask : {A : Type 0} → (Env → ℕ → A) → M A
ask f env w = (ok (f env w.tick), record w { tick = suc w.tick })

-- The error of `m` replaced, as in `if errors.Is(err, from) { return to }`.
abbrev pub map_error : {A : Type 0} → (Error → Error) → M A → M A
map_error f m env w = let (r, w') = m env w in (elim r [ ok a ↦ ok a | err e ↦ err (f e) ], w')

-- Store.ExecTx: the body runs in a database transaction, which commits if the body returns no
-- error. Else, and if the commit fails, the tables are as they were when it began.
unfoldable pub finish_tx : {A : Type 0} → Env → World → Result A × World → Result A × World
finish_tx env w (ok a, w') =
    if env.fails w'.tick
    then (err failure, record w { tick = suc w'.tick })
    else (ok a, record w' { tick = suc w'.tick; tx_time = none })
finish_tx env w (err e, w') = (err e, record w { tick = w'.tick })

unfoldable pub exec_tx : {A : Type 0} → M A → M A
unfolding finish_tx
exec_tx body env w =
    let r = body env (record w { tick = suc w.tick; tx_time = some (env.now w.tick) }) in
    if env.fails w.tick then (err failure, record w { tick = suc w.tick }) else finish_tx env w r
