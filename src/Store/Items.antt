-- ===== src/Store/Items.antt =====
-- The statements of internal/repository/transaction_items.sql.go, with `sync_transaction_total` of
-- db/migrations/00008: it runs once for each row of `transaction_items` that a statement changed.
use expense.Base.{
  ℕ, zero, suc, ◌+◌, true, not, List, [], ◌∷◌, ◌++◌, Text, ℤ, pos, ◌+ℤ◌, filter, count, update,
  ◌==◌,
}
use expense.Store.Rows.{Transaction, TransactionItem}
use expense.Store.World.{Db, ok, Statement}
use expense.Store.Transactions.{touch, has_id}

-- A row of InsertTransactionItemsParams, which holds one array for each column.
pub record ItemRow : Type 0 where
  pub description : Text
  pub quantity : ℤ
  pub amount : ℤ

-- COALESCE(SUM(amount), 0).
abbrev pub sum_amounts : List TransactionItem → ℤ
sum_amounts [] = pos 0
sum_amounts (i ∷ is) = i.amount +ℤ sum_amounts is

abbrev pub items_of : ℕ → Db → List TransactionItem
items_of id d = filter (λ i. i.transaction_id == id) d.items

abbrev pub with_total : ℕ → ℤ → Transaction → Transaction
with_total now total t = touch now (record t { total_amount = total })

-- `n` runs of the trigger for transaction `id`.
unfoldable pub sync_total : ℕ → (id now : ℕ) → Db → Db
sync_total zero id now d = d
sync_total (suc n) id now d = sync_total n id now (record d {
  transactions = update (has_id id) (with_total now (sum_amounts (items_of id d))) d.transactions;
})

unfoldable pub delete_transaction_items : (transaction_id : ℕ) → Statement ℕ
unfolding sync_total
delete_transaction_items id now d =
    let n = count (λ i. i.transaction_id == id) d.items in
    (
      ok n,
      sync_total n id now (record d { items = filter (λ i. not (i.transaction_id == id)) d.items }),
    )

-- The rows that `unnest` makes, each with an id of its own.
unfoldable pub new_items : (id now next_id : ℕ) → List ItemRow → List TransactionItem
new_items id now next [] = []
new_items id now next (r ∷ rs) =
    record {
      id = next;
      transaction_id = id;
      description = r.description;
      quantity = r.quantity;
      amount = r.amount;
      created_at = now;
      updated_at = now;
    }
    ∷ new_items id now (suc next) rs

unfoldable pub insert_transaction_items : (transaction_id : ℕ) → List ItemRow → Statement ℕ
unfolding sync_total new_items
insert_transaction_items id rows now d =
    let n = count (λ _. true) rows in
    (
      ok n,
      sync_total n id now (record d {
        items = d.items ++ new_items id now d.next_id rows;
        next_id = d.next_id + n;
      }),
    )
