-- ===== src/Store/Transactions.antt =====
-- The statements of internal/repository/transactions.sql.go and transaction_items.sql.go, with the
-- triggers of db/migrations/00002, 00008 and 00017 that an UPDATE of a transaction runs.
use expense.Base.{
  ℕ, suc, ◌+◌, ◌++◌, ◌∷◌, [], any, pos, if◌then◌else◌, Bool, false, ◌&&◌, Option, none, some, Text,
  find, count, update, is_none, ◌==◌,
}
use expense.Store.Rows.{Status, status_eq, Transaction, Project}
use expense.Store.World.{ok, err, no_rows, one, Statement}

-- `trg_transactions_updated_at` and `trg_transactions_bump_version`.
abbrev pub touch : ℕ → Transaction → Transaction
touch now t = record t { updated_at = now; version = t.version + 1 }

abbrev pub has_id : ℕ → Transaction → Bool
has_id id t = t.id == id

abbrev pub is_draft : ℕ → Transaction → Bool
is_draft id t = t.id == id && status_eq t.status Status.draft && is_none t.deleted_at

abbrev pub is_pending : ℕ → Transaction → Bool
is_pending id t = t.id == id && status_eq t.status Status.pending_approval

-- CreateTransactionParams; the columns that it leaves out have their defaults.
pub record NewTransaction : Type 0 where
  pub organization_id : ℕ
  pub project_id : ℕ
  pub description : Option Text
  pub currency : Text
  pub category : Option Text
  pub created_by : ℕ
  pub created_by_name : Text
  pub created_by_email : Text
  pub created_by_role : Text

abbrev pub transaction_row : (now id : ℕ) → NewTransaction → Transaction
transaction_row now id p = record {
  id = id;
  organization_id = p.organization_id;
  project_id = p.project_id;
  status = Status.draft;
  description = p.description;
  total_amount = pos 0;
  currency = p.currency;
  category = p.category;
  created_by = p.created_by;
  created_by_name = p.created_by_name;
  created_by_email = p.created_by_email;
  created_by_role = p.created_by_role;
  submitted_at = none;
  decided_at = none;
  created_at = now;
  updated_at = now;
  deleted_at = none;
  version = 1;
}

-- The project takes drafts: it is live, of the organization, and not archived.
abbrev pub takes_drafts : (id organization_id : ℕ) → Project → Bool
takes_drafts id org p =
    p.id == id && p.organization_id == org && is_none p.deleted_at && is_none p.archived_at

-- INSERT … SELECT from the project: without it no row comes back.
unfoldable pub create_transaction : NewTransaction → Statement Transaction
create_transaction p now d =
    if any (takes_drafts p.project_id p.organization_id) d.projects
    then (
      ok (transaction_row now d.next_id p),
      record d {
        transactions = d.transactions ++ transaction_row now d.next_id p ∷ [];
        next_id = suc d.next_id;
      },
    )
    else (err no_rows, d)

unfoldable pub get_transaction : (id organization_id : ℕ) → Statement Transaction
get_transaction id org now d = (
  one (find (λ t. t.id == id && t.organization_id == org && is_none t.deleted_at) d.transactions),
  d,
)

unfoldable pub lock_transaction : (id : ℕ) → Statement Transaction
lock_transaction id now d = (one (find (has_id id) d.transactions), d)

unfoldable pub count_transaction_documents : (transaction_id : ℕ) → Statement ℕ
count_transaction_documents id now d = (
  ok (
      count
        (λ x.
          (elim x.transaction_id [ none ↦ false | some t ↦ t == id ])
          && is_none x.deleted_at
          && x.upload_complete)
        d.documents),
  d,
)

abbrev pub submitted : ℕ → Transaction → Transaction
submitted now t = touch now (record t { status = Status.pending_approval; submitted_at = some now })

unfoldable pub submit_transaction : (id : ℕ) → Statement ℕ
submit_transaction id now d = (
  ok (count (is_draft id) d.transactions),
  record d { transactions = update (is_draft id) (submitted now) d.transactions },
)

-- `SET status = …, decided_at = now()`.
abbrev pub closed : ℕ → Status → Transaction → Transaction
closed now s t = touch now (record t { status = s; decided_at = some now })

unfoldable pub approve_transaction : (id : ℕ) → Statement ℕ
approve_transaction id now d = (
  ok (count (is_pending id) d.transactions),
  record d { transactions = update (is_pending id) (closed now Status.approved) d.transactions },
)

unfoldable pub reject_transaction : (id : ℕ) → Statement ℕ
reject_transaction id now d = (
  ok (count (is_pending id) d.transactions),
  record d { transactions = update (is_pending id) (closed now Status.rejected) d.transactions },
)

unfoldable pub soft_delete_transaction : (id organization_id : ℕ) → Statement ℕ
soft_delete_transaction id org now d =
    let matches = λ (t : Transaction). is_draft id t && t.organization_id == org in
    (
      ok (count matches d.transactions),
      record d {
        transactions =
            update matches (λ t. touch now (record t { deleted_at = some now })) d.transactions;
      },
    )

unfoldable pub update_transaction_draft :
    (id organization_id : ℕ)
    → Option Text
    → (currency : Text) → Option Text
    → (expected_version : ℕ) → Statement Transaction
update_transaction_draft id org description currency category expected now d =
    let matches =
      λ (t : Transaction). is_draft id t && t.organization_id == org && t.version == expected in
    let change = λ (t : Transaction).
      touch now
        (record t { description = description; currency = currency; category = category }) in
    elim (find matches d.transactions) [
      | none ↦ (err no_rows, d)
      | some t ↦ (ok (change t), record d { transactions = update matches change d.transactions })
    ]
