-- ===== src/Store/Documents.antt =====
-- The statements of internal/repository/documents.sql.go.
use expense.Base.{
  ℕ, Bool, true, false, not, ◌&&◌, ◌||◌, Option, none, some, List, [], ◌∷◌, any, count, filter,
  find, take, update, map, sort_by, is_none, is_some, ltb, ◌==◌, if◌then◌else◌,
}
use expense.Store.Rows.{Project}
use expense.Store.DocumentRows.{Document, DocumentResult, OcrStatus, ocr_status_eq}
use expense.Store.World.{ok, one, Statement}

-- A document that is there: uploaded, and not deleted.
abbrev pub is_there : Document → Bool
is_there x = is_none x.deleted_at && x.upload_complete

abbrev pub is_document : (id : ℕ) → Document → Bool
is_document id x = x.id == id && is_there x

-- The document in a status of its OCR.
abbrev pub is_in : (id : ℕ) → OcrStatus → Document → Bool
is_in id s x = x.id == id && ocr_status_eq x.ocr_status s && is_there x

-- UPDATE … :execrows.
abbrev pub change_documents : (Document → Bool) → (Document → Document) → Statement ℕ
change_documents p f now d =
    (ok (count p d.documents), record d { documents = update p f d.documents })

unfoldable pub claim_document_for_ocr : (id : ℕ) → Statement ℕ
claim_document_for_ocr id =
    change_documents (is_in id OcrStatus.pending)
      (λ x. record x { ocr_status = OcrStatus.processing })

abbrev pub attached :
    ℕ → (transaction_id : ℕ) → OcrStatus → Option DocumentResult → Document → Document
attached now t s result x = record x {
  transaction_id = some t;
  ocr_status = s;
  ocr_data = result;
  ocr_processed_at = some now;
}

unfoldable pub attach_document_to_transaction :
    (id transaction_id : ℕ) → OcrStatus → Option DocumentResult → Statement ℕ
attach_document_to_transaction id t s result now =
    change_documents (is_in id OcrStatus.processing) (attached now t s result) now

abbrev pub processed : ℕ → OcrStatus → Option DocumentResult → Document → Document
processed now s result x = record x {
  ocr_status = s;
  ocr_data = result;
  ocr_processed_at = some now;
}

unfoldable pub complete_document_ocr : (id : ℕ) → OcrStatus → Option DocumentResult → Statement ℕ
complete_document_ocr id s result now =
    change_documents (is_in id OcrStatus.processing) (processed now s result) now

unfoldable pub fail_document_ocr : (id : ℕ) → Statement ℕ
fail_document_ocr id now =
    change_documents (is_in id OcrStatus.processing)
      (λ x. record x { ocr_status = OcrStatus.failed; ocr_processed_at = some now }) now

unfoldable pub complete_document_upload : (id : ℕ) → Statement ℕ
complete_document_upload id =
    change_documents (λ x. x.id == id && not x.upload_complete && is_none x.deleted_at)
      (λ x. record x { upload_complete = true })

unfoldable pub set_ocr_document_id : (id ocr_document_id : ℕ) → Statement ℕ
set_ocr_document_id id job =
    change_documents (λ x. is_document id x && is_none x.ocr_document_id)
      (λ x. record x { ocr_document_id = some job })

unfoldable pub soft_delete_document : (id : ℕ) → Statement ℕ
soft_delete_document id now =
    change_documents (is_document id) (λ x. record x { deleted_at = some now }) now

-- A row of GetDocumentForProcessing: the document and its project's organization.
pub record ProcessedDocument : Type 0 where
  pub document : Document
  pub organization_id : ℕ

-- The join of a document with its project.
abbrev pub in_project : List Project → Option Document → Option ProcessedDocument
in_project projects none = none
in_project projects (some x) = elim (find (λ p. p.id == x.project_id) projects) [
  | none ↦ none
  | some p ↦ some (record { document = x; organization_id = p.organization_id })
]

unfoldable pub get_document_for_processing : (id : ℕ) → Statement ProcessedDocument
get_document_for_processing id now d =
    (one (in_project d.projects (find (is_document id) d.documents)), d)

abbrev pub of_organization : (organization_id : ℕ) → Option ProcessedDocument → Option Document
of_organization org none = none
of_organization org (some x) = if x.organization_id == org then some x.document else none

unfoldable pub get_document : (id organization_id : ℕ) → Statement Document
get_document id org now d =
    (one (of_organization org (in_project d.projects (find (is_document id) d.documents))), d)

abbrev pub is_of_key : (project_id uploaded_by key : ℕ) → Document → Bool
is_of_key project user key x =
    x.project_id == project
    && x.uploaded_by == user
    && (elim x.idempotency_key [ none ↦ false | some k ↦ k == key ])

unfoldable pub get_document_upload_by_key : (project_id uploaded_by key : ℕ) → Statement Document
get_document_upload_by_key project user key now d =
    (one (find (is_of_key project user key) d.documents), d)

unfoldable pub lock_document_upload : (id : ℕ) → Statement Document
lock_document_upload id now d =
    (one (find (λ x. x.id == id && is_none x.deleted_at) d.documents), d)

-- ORDER BY created_at ASC.
abbrev pub is_before : Document → Document → Bool
is_before a b = ltb a.created_at b.created_at

unfoldable pub list_documents_by_project : (project_id : ℕ) → Statement (List Document)
list_documents_by_project project now d =
    (ok (sort_by is_before (filter (λ x. x.project_id == project && is_there x) d.documents)), d)

unfoldable pub list_documents_by_transaction : (transaction_id : ℕ) → Statement (List Document)
list_documents_by_transaction t now d = (
  ok (
      sort_by is_before (
        filter (λ x. (elim x.transaction_id [ none ↦ false | some y ↦ y == t ]) && is_there x)
          d.documents)),
  d,
)

-- A document whose OCR the gateway has and has not ended.
abbrev pub is_stale : (created_before : ℕ) → Document → Bool
is_stale before x =
    is_there x
    && (ocr_status_eq x.ocr_status OcrStatus.pending
        || ocr_status_eq x.ocr_status OcrStatus.processing)
    && is_some x.ocr_document_id
    && ltb x.created_at before

unfoldable pub list_stale_ocr_documents : (created_before limit : ℕ) → Statement (List Document)
list_stale_ocr_documents before limit now d =
    (ok (take limit (sort_by is_before (filter (is_stale before) d.documents))), d)

-- A document that no job of the gateway has, and that was not tried lately.
abbrev pub is_unsubmitted : (created_before tried_before : ℕ) → Document → Bool
is_unsubmitted before tried x =
    is_in x.id OcrStatus.pending x
    && is_none x.ocr_document_id
    && ltb x.created_at before
    && (elim x.ocr_submit_attempted_at [ none ↦ true | some t ↦ ltb t tried ])

-- ORDER BY COALESCE(ocr_submit_attempted_at, created_at), created_at.
abbrev pub tried_at : Document → ℕ
tried_at x = elim x.ocr_submit_attempted_at [ none ↦ x.created_at | some t ↦ t ]

abbrev pub is_tried_before : Document → Document → Bool
is_tried_before a b = ltb (tried_at a) (tried_at b) || (tried_at a == tried_at b && is_before a b)

abbrev pub unsubmitted : (created_before tried_before limit : ℕ) → List Document → List Document
unsubmitted before tried limit xs =
    take limit (sort_by is_tried_before (filter (is_unsubmitted before tried) xs))

-- The rows with their organizations; a project is a foreign key.
abbrev pub with_organizations : List Project → List Document → List ProcessedDocument
with_organizations projects [] = []
with_organizations projects (x ∷ xs) =
    let rest = with_organizations projects xs in
    elim (in_project projects (some x)) [ none ↦ rest | some y ↦ y ∷ rest ]

unfoldable pub claim_stale_ocr_submissions :
    (created_before tried_before limit : ℕ) → Statement (List ProcessedDocument)
claim_stale_ocr_submissions before tried limit now d =
    let chosen = unsubmitted before tried limit d.documents in
    let mark = λ (x : Document). record x { ocr_submit_attempted_at = some now } in
    (
      ok (with_organizations d.projects (map mark chosen)),
      record d { documents = update (λ x. any (λ c. c.id == x.id) chosen) mark d.documents },
    )
