-- ===== src/Drafts/Examples.antt =====
-- The checks of a draft on a draft's items.
use expense.Base.{◌<◌, ◌≤◌, ◌≡◌, ◌^◌, ◌-◌, ◌↔◌, refl, true, List, [], ◌∷◌, codes, pos, length, All}
use expense.Base.{some, ◌==◌}
use expense.Store.World.{Env, failure}
use expense.Store.Transactions.{soft_delete_transaction}
use expense.Drafts.Edit.{delete_draft, announce_deleted}
use expense.Store.Rows.{Transaction}
use expense.Store.World.{ok, err, invalid_amount, transaction_changed, run, ask, exec_tx, finish_tx}
use expense.Store.Transactions.{get_transaction, lock_transaction, update_transaction_draft}
use expense.Store.Items.{delete_transaction_items, insert_transaction_items, sync_total, new_items}
use expense.Store.Access.{get_user_project_actions}
use expense.Store.Outbox.{emit, create_outbox_event}
use expense.Authz.{can}
use expense.Approval.Scenarios.{creator, draft, start, quiet, world}
use expense.Drafts.Edit.{
  UpdateInput, update_draft, check_update, can_edit_draft_row, update_body, save_draft,
  replace_items,
}
use expense.Drafts.Versions.{Current, update_draft-Current, update_draft-atomic}
use expense.Drafts.{ItemInput, validate_items, validate_from, is_valid_category}
use expense.Drafts.Overflow.{sum_of, IsItemGood, validate_items_iff}

abbrev receipt : List ItemInput
receipt =
    record { description = codes "rice"; quantity = pos 2; amount = pos 30000 }
    ∷ record { description = codes "bus"; quantity = pos 1; amount = pos 3500 }
    ∷ []

validate_items_iff_example :
    (validate_items receipt ≡ ok tt)
    ↔ ((length receipt ≤ 200) × All IsItemGood receipt × (sum_of receipt < 2 ^ 63))
validate_items_iff_example = validate_items_iff receipt

accepted : validate_items receipt ≡ ok tt
unfolding validate_items validate_from
accepted = refl

-- Two amounts that are an int64 each, and too much together.
overflow :
    validate_items (
      record { description = codes "a"; quantity = pos 1; amount = pos (2 ^ 63 - 1) }
      ∷ record { description = codes "b"; quantity = pos 1; amount = pos 1 }
      ∷ [])
    ≡ err invalid_amount
unfolding validate_items validate_from
overflow = refl

category : is_valid_category (codes "material") ≡ true
unfolding is_valid_category
category = refl

abbrev edit : UpdateInput
edit = record {
  description = some (codes "lunch");
  items = some receipt;
  currency = [];
  category = some (codes "makan_minum");
  expected_version = 1;
}

abbrev late_edit : UpdateInput
late_edit = record edit { expected_version = 0 }

-- The edit bumps the version, and so does each row of the items.
abbrev edited : Transaction
edited = record draft {
  description = some (codes "lunch");
  category = some (codes "makan_minum");
  total_amount = pos 33500;
  updated_at = 2;
  version = 4;
}

runs :
    ((update_draft creator 1 edit quiet (world start)).0 ≡ ok edited)
    × ((update_draft creator 1 late_edit quiet (world start)).0 ≡ err transaction_changed)
unfolding update_draft check_update can_edit_draft_row get_transaction can get_user_project_actions
    is_valid_category validate_items validate_from update_body lock_transaction save_draft
    update_transaction_draft replace_items delete_transaction_items insert_transaction_items
    sync_total new_items emit create_outbox_event exec_tx finish_tx run ask
runs = (refl, refl)

update_draft-Current_example : Current creator 1 edit start
update_draft-Current_example = update_draft-Current creator 1 edit quiet (world start) edited runs.0

update_draft-atomic_example : (update_draft creator 1 late_edit quiet (world start)).1.db ≡ start
update_draft-atomic_example = update_draft-atomic creator 1 late_edit quiet (world start) runs.1

-- A deletion whose last call fails: the draft is deleted, and no event says so.
abbrev failing : Env
failing = record quiet { fails = λ n. n == 3 }

deleted_without_event :
    let (r, w) = delete_draft creator 1 failing (world start) in
    (r ≡ err failure)
    × (w.db.outbox ≡ [])
    × (w.db.transactions ≡ record draft { deleted_at = some 2; updated_at = 2; version = 2 } ∷ [])
unfolding delete_draft announce_deleted can_edit_draft_row get_transaction can
    get_user_project_actions soft_delete_transaction emit create_outbox_event exec_tx finish_tx run
    ask
deleted_without_event = (refl, refl, refl)
