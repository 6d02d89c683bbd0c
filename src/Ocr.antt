-- ===== src/Ocr.antt =====
-- internal/service/ocrconsumer/service.go: OCR results that become draft transactions.
use expense.Base.{
  ℕ, ◌^◌, ◌-◌, Bool, true, false, not, ◌||◌, ◌&&◌, ◌==◌, Option, none, some, List, [], ◌∷◌, Text,
  codes, text_eq, find, ℤ, pos, ltb_ℤ, ◌-ℤ◌, if◌then◌else◌, is_some, is_none,
}
use expense.Store.Rows.{Status, status_eq, Transaction, Topic, Payload}
use expense.Store.DocumentRows.{Document, DocumentResult, ExtractField, OcrStatus, ocr_status_eq}
use expense.Store.World.{
  Env, World, Error, Result, ok, err, is_no_rows, not_found, no_rows, identity_unavailable,
  write_access_denied, WriteAccessLease, M, pure, raise, raise_if, ◌>>=◌, ◌>>◌, run, ask, exec_tx,
}
use expense.Store.Transactions.{
  NewTransaction, create_transaction, get_transaction, lock_transaction,
}
use expense.Store.Items.{ItemRow, insert_transaction_items}
use expense.Store.Documents.{
  ProcessedDocument, attach_document_to_transaction, claim_document_for_ocr, complete_document_ocr,
  fail_document_ocr, get_document_for_processing,
}
use expense.Store.Outbox.{emit}
pub mod Sweep
mod Taken
mod Drafts
mod Examples

-- The status that is inferred of a result.
pub data ResultStatus : Type 0 where
  completed needs_review failed : ResultStatus

abbrev pub is_completed : ResultStatus → Bool
is_completed ResultStatus.completed = true
is_completed s = false

-- Its event's id, its job's id and its error are only logged.
pub record ProcessedMessage : Type 0 where
  pub external_ref : ℕ
  pub status : ResultStatus
  pub result : Option DocumentResult

pub record OcrItem : Type 0 where
  pub description : Text
  pub quantity : ℤ
  pub amount : ℤ

unfoldable pub find_field : (name : Text) → DocumentResult → Option ExtractField
find_field name r = find (λ f. text_eq f.name name) r.fields

-- The total, where it is a clean extraction.
abbrev pub if_extracted : Option ExtractField → Option ExtractField
if_extracted none = none
if_extracted (some f) = if text_eq f.status (codes "extracted") then some f else none

unfoldable pub money_field : DocumentResult → Option ExtractField
unfolding find_field
money_field r = if_extracted (find_field (codes "total") r)

unfoldable pub classify_result : Option DocumentResult → ResultStatus
unfolding money_field
classify_result none = ResultStatus.needs_review
classify_result (some r) =
    if is_some (money_field r) && r.is_confident
    then ResultStatus.completed
    else ResultStatus.needs_review

-- The merchant's name, else the file's.
abbrev pub description_of : (file_name : Text) → Option ExtractField → Text
description_of file none = file
description_of file (some merchant) = if text_eq merchant.value [] then file else merchant.value

abbrev pub is_usable : ExtractField → Bool
is_usable total = text_eq total.currency (codes "IDR") && not (ltb_ℤ total.amount (pos 0))

abbrev pub item_of : (file_name : Text) → DocumentResult → Option ExtractField → Option OcrItem
item_of file r none = none
item_of file r (some total) =
    if is_usable total
    then some (record {
      description = description_of file (find_field (codes "merchant") r);
      quantity = pos 1;
      amount = total.amount;
    })
    else none

unfoldable pub total_item : (file_name : Text) → DocumentResult → Option OcrItem
unfolding find_field money_field
total_item file r = item_of file r (money_field r)

-- ErrNoRows is `none`.
abbrev pub or_absent : {A : Type 0} → Result A × World → Result (Option A) × World
or_absent (ok a, w) = (ok (some a), w)
or_absent (err e, w) = (if is_no_rows e then ok none else err e, w)

unfoldable pub find_document : (id : ℕ) → M (Option ProcessedDocument)
find_document id env w = or_absent (run (get_document_for_processing id) env w)

abbrev pub is_denied : WriteAccessLease → Bool
is_denied l = l.is_deleted || l.is_frozen || not l.member_active || not l.service_allowed

abbrev pub check_access : Option WriteAccessLease → M (Unit {0})
check_access none = raise identity_unavailable
check_access (some l) = do
  raise_if (not l.is_held) identity_unavailable
  raise_if (is_denied l) write_access_denied

-- The identity service is asked for the uploader's access in the document's organization.
unfoldable pub hold_access : ProcessedDocument → M (Unit {0})
hold_access x = do
  answer ←
      ask
        (λ env t. env.identity.hold_expense_write_access t x.organization_id x.document.uploaded_by)
  check_access answer

abbrev pub item_row : OcrItem → ItemRow
item_row i = record { description = i.description; quantity = i.quantity; amount = i.amount }

-- The result is kept for a review.
abbrev pub park : (id : ℕ) → Option DocumentResult → M (Unit {0})
park id result = run (complete_document_ocr id OcrStatus.needs_review result) >> pure tt

abbrev pub max_int64 : ℕ
max_int64 = 2 ^ 63 - 1

-- The transaction's total is negative, or has no room for the amount.
abbrev pub is_overflow : Transaction → OcrItem → Bool
is_overflow t i = ltb_ℤ t.total_amount (pos 0) || ltb_ℤ (pos max_int64 -ℤ t.total_amount) i.amount

unfoldable pub append_item :
    ProcessedDocument
    → (transaction_id organization_id : ℕ) → OcrItem
    → Option DocumentResult
    → M (Unit {0})
append_item x t org item result = do
  run (insert_transaction_items t (item_row item ∷ []))
  run (attach_document_to_transaction x.document.id t OcrStatus.completed result)
  refreshed ← run (get_transaction t org)
  emit (codes "transaction") t Topic.audit (
      Payload.transaction_updated org t refreshed.total_amount x.document.uploaded_by (codes "ocr"))

abbrev pub is_bound_to : (transaction_id : ℕ) → Document → Bool
is_bound_to t x =
    ocr_status_eq x.ocr_status OcrStatus.processing
    && (elim x.transaction_id [ none ↦ false | some y ↦ y == t ])

-- The item goes to the draft if it fits.
abbrev pub attach_item :
    (transaction_id : ℕ)
    → ProcessedDocument
    → Transaction
    → Option OcrItem
    → Option DocumentResult
    → M (Unit {0})
attach_item t x locked none result = park x.document.id result
attach_item t x locked (some item) result =
    if not (status_eq locked.status Status.draft) || is_overflow locked item
    then park x.document.id result
    else append_item x t locked.organization_id item result

abbrev pub attach_to :
    (transaction_id : ℕ)
    → Transaction
    → Option OcrItem
    → Option DocumentResult
    → Option ProcessedDocument
    → M (Unit {0})
attach_to t locked item result none = pure tt
attach_to t locked item result (some x) =
    if is_bound_to t x.document
    then raise_if (not (x.organization_id == locked.organization_id)) not_found
      >> attach_item t x locked item result
    else pure tt

unfoldable pub attach_body :
    (id transaction_id : ℕ) → Option OcrItem → Option DocumentResult → M (Unit {0})
unfolding find_document append_item
attach_body id t item result = do
  locked ← run (lock_transaction t)
  raise_if (is_some locked.deleted_at) not_found
  current ← find_document id
  attach_to t locked item result current

unfoldable pub attach :
    (id transaction_id : ℕ) → Option OcrItem → Option DocumentResult → M (Unit {0})
unfolding attach_body
attach id t item result = exec_tx (attach_body id t item result)

abbrev pub draft_of : ProcessedDocument → NewTransaction
draft_of x = record {
  organization_id = x.organization_id;
  project_id = x.document.project_id;
  description = none;
  currency = codes "IDR";
  category = none;
  created_by = x.document.uploaded_by;
  created_by_name = x.document.uploaded_by_name;
  created_by_email = x.document.uploaded_by_email;
  created_by_role = x.document.uploaded_by_role;
}

unfoldable pub fill_draft :
    ProcessedDocument → (transaction_id : ℕ) → OcrItem → Option DocumentResult → M (Unit {0})
fill_draft x t item result = do
  run (insert_transaction_items t (item_row item ∷ []))
  run (attach_document_to_transaction x.document.id t OcrStatus.completed result)
  created ← run (get_transaction t x.organization_id)
  emit (codes "transaction") created.id Topic.audit (
      Payload.transaction_created x.organization_id created.id x.document.project_id
        created.total_amount x.document.uploaded_by)

-- A project that takes no drafts any more leaves the result for a review.
abbrev pub after_create :
    ProcessedDocument → OcrItem → Option DocumentResult → Option Transaction → M (Unit {0})
after_create x item result none = park x.document.id result
after_create x item result (some row) = fill_draft x row.id item result

unfoldable pub try_create : NewTransaction → M (Option Transaction)
try_create p env w = or_absent (run (create_transaction p) env w)

unfoldable pub draft_from : ProcessedDocument → OcrItem → Option DocumentResult → M (Unit {0})
unfolding try_create fill_draft
draft_from x item result = do row ← try_create (draft_of x); after_create x item result row

abbrev pub is_unbound : Document → Bool
is_unbound x = ocr_status_eq x.ocr_status OcrStatus.processing && is_none x.transaction_id

abbrev pub draft_for : OcrItem → Option DocumentResult → Option ProcessedDocument → M (Unit {0})
draft_for item result none = pure tt
draft_for item result (some x) = if is_unbound x.document then draft_from x item result else pure tt

unfoldable pub create_draft_body : (id : ℕ) → OcrItem → Option DocumentResult → M (Unit {0})
unfolding find_document draft_from
create_draft_body id item result = do current ← find_document id; draft_for item result current

unfoldable pub create_draft : (id : ℕ) → Option OcrItem → Option DocumentResult → M (Unit {0})
unfolding create_draft_body
create_draft id none result = park id result
create_draft id (some item) result = exec_tx (create_draft_body id item result)

-- The item of a completed result; a message that is completed carries a result.
abbrev pub item_for : ProcessedDocument → ResultStatus → Option DocumentResult → Option OcrItem
item_for x status none = none
item_for x status (some r) = if is_completed status then total_item x.document.file_name r else none

abbrev pub settle : ProcessedDocument → Option OcrItem → Option DocumentResult → M (Unit {0})
settle x item result = elim x.document.transaction_id [
  | none ↦ create_draft x.document.id item result
  | some t ↦ attach x.document.id t item result
]

abbrev pub apply_result : ProcessedDocument → ResultStatus → Option DocumentResult → M (Unit {0})
apply_result x ResultStatus.failed result = run (fail_document_ocr x.document.id) >> pure tt
apply_result x status result = settle x (item_for x status result) result

abbrev pub apply_found : ProcessedMessage → Option ProcessedDocument → M (Unit {0})
apply_found msg none = pure tt
apply_found msg (some x) = apply_result x msg.status msg.result

-- Once more, now that no other delivery has the document.
unfoldable pub apply_claimed : ProcessedMessage → M (Unit {0})
unfolding find_document total_item create_draft attach
apply_claimed msg = do found ← find_document msg.external_ref; apply_found msg found

abbrev pub if_claimed : ProcessedMessage → (rows : ℕ) → M (Unit {0})
if_claimed msg rows = if rows == 0 then pure tt else apply_claimed msg

unfoldable pub claim_and_apply : ProcessedMessage → ProcessedDocument → M (Unit {0})
unfolding hold_access apply_claimed
claim_and_apply msg x = do
  hold_access x
  claimed ← run (claim_document_for_ocr msg.external_ref)
  if_claimed msg claimed

abbrev pub handle_found : ProcessedMessage → Option ProcessedDocument → M (Unit {0})
handle_found msg none = pure tt
handle_found msg (some x) =
    if ocr_status_eq x.document.ocr_status OcrStatus.pending then claim_and_apply msg x else pure tt

unfoldable pub handle : ProcessedMessage → M (Unit {0})
unfolding find_document claim_and_apply
handle msg = do found ← find_document msg.external_ref; handle_found msg found
