-- ===== src/Ocr/Examples.antt =====
-- A receipt whose result comes twice, and one whose first delivery fails half-way.
use expense.Base.{ℕ, suc, ◌≤◌, ◌≡◌, ◌≢◌, refl, true, none, some, [], ◌∷◌, codes, pos, length, ◌==◌}
use expense.Store.DocumentRows.{Document, DocumentResult, ExtractField, OcrStatus}
use expense.Store.World.{Db, Env, World, ok, err, failure, run, ask, exec_tx, finish_tx}
use expense.Store.Transactions.{create_transaction, get_transaction}
use expense.Store.Items.{insert_transaction_items, sync_total, new_items}
use expense.Store.Documents.{
  attach_document_to_transaction, claim_document_for_ocr, get_document_for_processing,
}
use expense.Store.Outbox.{emit, create_outbox_event}
use expense.Approval.Scenarios.{start, receipt, quiet, world}
use expense.Ocr.{
  ResultStatus, ProcessedMessage, find_field, money_field, classify_result, total_item,
  find_document, hold_access, claim_and_apply, apply_claimed, create_draft, create_draft_body,
  draft_from, try_create, fill_draft, handle,
}
use expense.Ocr.Taken.{IsTaken}
use expense.Ocr.Drafts.{Delivered, one_draft_at_most}

abbrev upload : Document
upload = record receipt { transaction_id = none }

abbrev inbox : Db
inbox = record start {
  transactions = [];
  documents = upload ∷ [];
  projects =
      record {
        id = 5;
        organization_id = 3;
        name = codes "house";
        created_by = 7;
        created_at = 1;
        updated_at = 1;
        deleted_at = none;
        archived_at = none;
      }
      ∷ [];
}

abbrev total : ExtractField
total = record {
  name = codes "total";
  value = [];
  amount = pos 33500;
  currency = codes "IDR";
  status = codes "extracted";
}

abbrev result : DocumentResult
result = record { is_confident = true; fields = total ∷ [] }

abbrev message : ProcessedMessage
message = record { external_ref = 2; status = ResultStatus.completed; result = some result }

classified : classify_result (some result) ≡ ResultStatus.completed
unfolding classify_result money_field find_field
classified = refl

abbrev once : World
once = (handle message quiet (world inbox)).1

abbrev twice : World
twice = (handle message quiet once).1

-- The draft has the total, and the second delivery makes no other.
drafted :
    ((handle message quiet (world inbox)).0 ≡ ok tt)
    × (◌≡◌ {A = ℕ} (length once.db.transactions) 1)
    × (◌≡◌ {A = ℕ} (length twice.db.transactions) 1)
unfolding handle find_document get_document_for_processing claim_and_apply hold_access
    claim_document_for_ocr apply_claimed total_item money_field find_field create_draft
    create_draft_body draft_from try_create create_transaction fill_draft insert_transaction_items
    sync_total new_items attach_document_to_transaction get_transaction emit create_outbox_event
    exec_tx finish_tx run ask
drafted = (refl, refl, refl)

one_draft_at_most_example :
    (length twice.db.transactions ≤ suc (length inbox.transactions))
    × (length twice.db.transactions ≢ length inbox.transactions → IsTaken 2 twice.db)
one_draft_at_most_example = one_draft_at_most 2 inbox (
    Delivered.next once (Delivered.next (world inbox) Delivered.nothing message refl quiet) message
      refl quiet)

-- The insertion of the items fails: the draft is undone, the claim is not.
abbrev failing : Env
failing = record quiet { fails = λ n. n == 7 }

abbrev stuck : World
stuck = (handle message failing (world inbox)).1

stuck_runs :
    ((handle message failing (world inbox)).0 ≡ err failure)
    × (stuck.db.documents ≡ record upload { ocr_status = OcrStatus.processing } ∷ [])
    × (stuck.db.transactions ≡ [])
    × ((handle message quiet stuck).0 ≡ ok tt)
unfolding handle find_document get_document_for_processing claim_and_apply hold_access
    claim_document_for_ocr apply_claimed total_item money_field find_field create_draft
    create_draft_body draft_from try_create create_transaction fill_draft insert_transaction_items
    sync_total new_items attach_document_to_transaction get_transaction emit create_outbox_event
    exec_tx finish_tx run ask
stuck_runs = (refl, refl, refl, refl)
