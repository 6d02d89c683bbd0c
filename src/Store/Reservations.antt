-- ===== src/Store/Reservations.antt =====
-- ReserveDocumentUpload of internal/repository/documents.sql.go.
use expense.Base.{
  ℕ, Bool, true, false, not, ◌||◌, ◌==◌, Option, none, some, List, [], ◌∷◌, ◌++◌, any, length, ltb,
  Text, ℤ, if◌then◌else◌,
}
use expense.Store.Rows.{Project, Transaction}
use expense.Store.DocumentRows.{Document, OcrStatus}
use expense.Store.World.{ok, err, no_rows, failure, Statement}
use expense.Store.Documents.{is_of_key}

pub record Reservation : Type 0 where
  pub id : ℕ
  pub project_id : ℕ
  pub transaction_id : Option ℕ
  pub storage_path : Text
  pub file_name : Text
  pub file_size : ℤ
  pub mime_type : Text
  pub file_hash : Text
  pub uploaded_by : ℕ
  pub uploaded_by_name : Text
  pub uploaded_by_email : Text
  pub uploaded_by_role : Text
  pub idempotency_key : ℕ

abbrev pub reserved_row : (now : ℕ) → Reservation → Document
reserved_row now r = record {
  id = r.id;
  transaction_id = r.transaction_id;
  storage_path = r.storage_path;
  file_name = r.file_name;
  file_size = r.file_size;
  mime_type = r.mime_type;
  file_hash = some r.file_hash;
  ocr_status = OcrStatus.pending;
  ocr_data = none;
  ocr_processed_at = none;
  uploaded_by = r.uploaded_by;
  created_at = now;
  deleted_at = none;
  project_id = r.project_id;
  uploaded_by_name = r.uploaded_by_name;
  uploaded_by_email = r.uploaded_by_email;
  uploaded_by_role = r.uploaded_by_role;
  ocr_document_id = none;
  idempotency_key = some r.idempotency_key;
  upload_complete = false;
  ocr_submit_attempted_at = none;
}

-- What the columns have room for (db/migrations/00009 and 00014).
abbrev pub exceeds_columns : Reservation → Bool
exceeds_columns r =
    ltb 255 (length r.file_name)
    || ltb 100 (length r.mime_type)
    || ltb 64 (length r.file_hash)
    || ltb 255 (length r.uploaded_by_name)
    || ltb 255 (length r.uploaded_by_email)
    || ltb 20 (length r.uploaded_by_role)

-- The foreign keys.
abbrev pub has_project : List Project → (project_id : ℕ) → Bool
has_project projects id = any (λ p. p.id == id) projects

abbrev pub has_transaction : List Transaction → Option ℕ → Bool
has_transaction transactions none = true
has_transaction transactions (some id) = any (λ t. t.id == id) transactions

-- INSERT … ON CONFLICT DO NOTHING: for a key that is there no row comes back.
unfoldable pub reserve_document_upload : Reservation → Statement ℕ
reserve_document_upload r now d =
    if exceeds_columns r
    then (err failure, d)
    else (if any (is_of_key r.project_id r.uploaded_by r.idempotency_key) d.documents
        then (err no_rows, d)
        else (if not (has_project d.projects r.project_id)
              || not (has_transaction d.transactions r.transaction_id)
              || any (λ (x : Document). x.id == r.id) d.documents
            then (err failure, d)
            else (ok r.id, record d { documents = d.documents ++ reserved_row now r ∷ [] })))
