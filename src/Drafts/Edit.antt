-- ===== src/Drafts/Edit.antt =====
-- internal/service/transaction/service.go: a draft is edited or deleted. The view of the edited
-- transaction that Update returns at its end is not built here: the row itself is returned.
use expense.Base.{
  ℕ, Bool, false, not, ◌||◌, ◌==◌, Option, none, some, List, [], ◌∷◌, Text, codes, text_eq, map,
  is_some, if◌then◌else◌,
}
use expense.Store.Rows.{Status, status_eq, Transaction, Payload, Topic}
use expense.Store.World.{
  Error, Result, ok, err, not_found, transaction_locked, transaction_changed, currency_invalid,
  category_invalid, M, pure, raise, raise_if, ◌>>=◌, ◌>>◌, run, map_error, exec_tx,
}
use expense.Store.Transactions.{
  get_transaction, lock_transaction, soft_delete_transaction, update_transaction_draft,
}
use expense.Store.Items.{ItemRow, delete_transaction_items, insert_transaction_items}
use expense.Store.Outbox.{emit}
use expense.Authz.{Actor, transaction_view, can, check_admin}
use expense.Approval.Submit.{or_not_found}
use expense.Drafts.{ItemInput, validate_items, is_valid_category}

pub record UpdateInput : Type 0 where
  pub description : Option Text
  pub items : Option (List ItemInput)
  pub currency : Text
  pub category : Option Text
  pub expected_version : ℕ

unfoldable pub can_edit_draft_row : Actor → Transaction → M (Unit {0})
can_edit_draft_row actor t = do
  can actor t.project_id transaction_view
  if t.created_by == actor.user_id then pure tt else check_admin actor

abbrev pub is_category_bad : Option Text → Bool
is_category_bad none = false
is_category_bad (some c) = not (is_valid_category c)

abbrev pub of_result : Result (Unit {0}) → M (Unit {0})
of_result (ok a) = pure a
of_result (err e) = raise e

-- `if in.Items != nil`.
abbrev pub check_items : Option (List ItemInput) → M (Unit {0})
check_items none = pure tt
check_items (some items) = of_result (validate_items items)

abbrev pub currency_of : Transaction → UpdateInput → Text
currency_of t input = if text_eq input.currency [] then t.currency else input.currency

-- The checks before the database transaction.
unfoldable pub check_update : Actor → (id : ℕ) → UpdateInput → M Transaction
unfolding can_edit_draft_row validate_items is_valid_category
check_update actor id input = do
  t ← map_error or_not_found (run (get_transaction id actor.org_id))
  can_edit_draft_row actor t
  raise_if (not (text_eq (currency_of t input) (codes "IDR"))) currency_invalid
  raise_if (is_category_bad input.category) category_invalid
  check_items input.items
  pure t

abbrev pub item_row : ItemInput → ItemRow
item_row i = record { description = i.description; quantity = i.quantity; amount = i.amount }

abbrev pub insert_items : (id : ℕ) → List ItemInput → M (Unit {0})
insert_items id [] = pure tt
insert_items id (i ∷ is) = run (insert_transaction_items id (map item_row (i ∷ is))) >> pure tt

unfoldable pub replace_items : (id : ℕ) → Option (List ItemInput) → Transaction → M Transaction
replace_items id none row = pure row
replace_items id (some items) row = do
  run (delete_transaction_items id)
  insert_items id items
  run (lock_transaction id)

abbrev pub or_changed : Error → Error
or_changed Error.no_rows = transaction_changed
or_changed e = e

unfoldable pub save_draft : Actor → (id : ℕ) → Transaction → UpdateInput → M Transaction
unfolding replace_items
save_draft actor id t input = do
  saved ← map_error or_changed (
      run (
        update_transaction_draft id t.organization_id input.description (currency_of t input)
          input.category input.expected_version))
  row ← replace_items id input.items saved
  emit (codes "transaction") row.id Topic.audit (
      Payload.transaction_updated row.organization_id row.id row.total_amount actor.user_id
        (codes "manual"))
  pure row

unfoldable pub update_body : Actor → (id : ℕ) → Transaction → UpdateInput → M Transaction
unfolding save_draft
update_body actor id t input = do
  locked ← map_error or_not_found (run (lock_transaction id))
  raise_if (not (locked.organization_id == actor.org_id) || is_some locked.deleted_at) not_found
  raise_if (not (status_eq locked.status Status.draft)) transaction_locked
  raise_if (not (locked.version == input.expected_version)) transaction_changed
  save_draft actor id t input

unfoldable pub update_draft : Actor → (id : ℕ) → UpdateInput → M Transaction
unfolding check_update update_body
update_draft actor id input = do
  t ← check_update actor id input
  exec_tx (update_body actor id t input)

unfoldable pub announce_deleted : Actor → (id : ℕ) → M (Unit {0})
announce_deleted actor id = exec_tx (
    emit (codes "transaction") id Topic.audit
      (Payload.transaction_deleted actor.org_id id actor.user_id))

-- The deletion itself is a statement of its own, outside of ExecTx.
unfoldable pub delete_draft : Actor → (id : ℕ) → M (Unit {0})
unfolding can_edit_draft_row announce_deleted
delete_draft actor id = do
  t ← map_error or_not_found (run (get_transaction id actor.org_id))
  can_edit_draft_row actor t
  rows ← run (soft_delete_transaction id actor.org_id)
  raise_if (rows == 0) transaction_locked
  announce_deleted actor id
