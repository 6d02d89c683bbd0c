-- ===== src/Documents.antt =====
-- internal/service/document/service.go: documents, read and deleted, and what the uploads share.
use expense.Base.{
  ℕ, Bool, true, false, not, ◌||◌, ◌==◌, Option, none, some, List, [], ◌∷◌, Text, codes, is_some, ℤ,
  if◌then◌else◌,
}
use expense.Store.Rows.{Status, status_eq, Project, Transaction, Topic, Payload}
use expense.Store.DocumentRows.{Document, OcrStatus}
use expense.Store.World.{
  World, Result, ok, err, conflict, not_found, transaction_locked, M, pure, raise_if, ◌>>=◌, ◌>>◌,
  run, ask, map_error, exec_tx,
}
use expense.Store.Transactions.{get_transaction, lock_transaction}
use expense.Store.Projects.{get_project}
use expense.Store.Documents.{
  ProcessedDocument, get_document, get_document_for_processing, list_documents_by_project,
  list_documents_by_transaction, soft_delete_document, set_ocr_document_id,
}
use expense.Store.Outbox.{emit}
use expense.Authz.{Actor, transaction_view, can, check_admin}
use expense.Approval.Submit.{or_not_found}
use expense.Ocr.Sweep.{Gateway, submit_input, job_of}
pub mod Uploads
mod Kept
mod Changes
mod Announced
mod Keyed
mod Retries
mod Examples

-- s3.Store, whose bucket is fixed: `put` says whether the object is kept, `presign_get` gives a
-- link, if it can.
pub record Storage : Type 0 where
  pub put : ℕ → (path : Text) (size : ℤ) (mime_type : Text) (content : List ℕ) → Bool
  pub presign_get : ℕ → (path : Text) (minutes : ℕ) (file_name : Text) → Option Text

-- What the service is made of beside the store and the identity service: `hash` is the hexadecimal
-- SHA-256 of the content, `id_text` an id in letters.
pub record Services : Type 0 where
  pub storage : Storage
  pub bucket : Text
  pub gateway : Gateway
  pub hash : List ℕ → Text
  pub id_text : ℕ → Text

-- The Document of model.go; the zero id stands for no transaction.
pub record DocumentView : Type 0 where
  pub id : ℕ
  pub transaction_id : ℕ
  pub file_name : Text
  pub file_url : Text
  pub mime_type : Text
  pub file_size : ℤ
  pub ocr_status : OcrStatus
  pub created_at : ℕ

abbrev pub or_zero : Option ℕ → ℕ
or_zero none = 0
or_zero (some t) = t

abbrev pub to_doc : (file_url : Text) → Document → DocumentView
to_doc url x = record {
  id = x.id;
  transaction_id = or_zero x.transaction_id;
  file_name = x.file_name;
  file_url = url;
  mime_type = x.mime_type;
  file_size = x.file_size;
  ocr_status = x.ocr_status;
  created_at = x.created_at;
}

-- constant/s3.go.
abbrev pub document_presign_ttl : ℕ
document_presign_ttl = 15

abbrev pub url_or_empty : Option Text → Text
url_or_empty none = []
url_or_empty (some url) = url

unfoldable pub file_url : Services → Document → M Text
file_url s x = do
  url ← ask (λ env t. s.storage.presign_get t x.storage_path document_presign_ttl x.file_name)
  pure (url_or_empty url)

unfoldable pub with_url : Services → Document → M DocumentView
unfolding file_url
with_url s x = do url ← file_url s x; pure (to_doc url x)

unfoldable pub with_urls : Services → List Document → M (List DocumentView)
unfolding with_url
with_urls s [] = pure []
with_urls s (x ∷ xs) = do here ← with_url s x; rest ← with_urls s xs; pure (here ∷ rest)

-- An error is logged.
abbrev pub ignored : {A : Type 0} → Result A × World → Result (Unit {0}) × World
ignored (ok _, w) = (ok tt, w)
ignored (err e, w) = (ok tt, w)

abbrev pub save_job : (document_id : ℕ) → Option ℕ → M (Unit {0})
save_job id none env w = (ok tt, w)
save_job id (some job) env w = ignored (run (set_ocr_document_id id job) env w)

unfoldable pub submit_ocr : Services → Document → M (Unit {0})
submit_ocr s x = do
  answer ← ask (λ env t. s.gateway.submit_document t (submit_input s.bucket x))
  save_job x.id (job_of s.gateway answer)

unfoldable pub document_from : Services → Document → M DocumentView
unfolding submit_ocr with_url
document_from s x = do submit_ocr s x; with_url s x

unfoldable pub get_authorized : Actor → (id : ℕ) → M Document
get_authorized actor id = do
  x ← map_error or_not_found (run (get_document id actor.org_id))
  can actor x.project_id transaction_view
  pure x

-- The link that is returned opens the file, so that the access is announced.
unfoldable pub get : Services → Actor → (id : ℕ) → M DocumentView
unfolding get_authorized with_url
get s actor id = do
  x ← get_authorized actor id
  exec_tx (
      emit (codes "document") x.id Topic.audit
        (Payload.document_accessed actor.org_id x.id actor.user_id))
  with_url s x

unfoldable pub load_project_for_view : Actor → (project_id : ℕ) → M Project
load_project_for_view actor project = do
  p ← map_error or_not_found (run (get_project project actor.org_id))
  can actor p.id transaction_view
  pure p

unfoldable pub list_by_project : Services → Actor → (project_id : ℕ) → M (List DocumentView)
unfolding load_project_for_view with_urls
list_by_project s actor project = do
  load_project_for_view actor project
  rows ← run (list_documents_by_project project)
  with_urls s rows

unfoldable pub list_by_transaction : Services → Actor → (transaction_id : ℕ) → M (List DocumentView)
unfolding with_urls
list_by_transaction s actor id = do
  t ← map_error or_not_found (run (get_transaction id actor.org_id))
  can actor t.project_id transaction_view
  rows ← run (list_documents_by_transaction id)
  with_urls s rows

-- The transaction is locked where it is a live draft of the organization.
unfoldable pub lock_draft : Actor → (transaction_id : ℕ) → M (Unit {0})
lock_draft actor id = do
  t ← map_error or_not_found (run (lock_transaction id))
  raise_if (not (t.organization_id == actor.org_id) || is_some t.deleted_at) not_found
  raise_if (not (status_eq t.status Status.draft)) transaction_locked

abbrev pub lock_bound : Actor → Option ℕ → M (Unit {0})
lock_bound actor none = pure tt
lock_bound actor (some t) = lock_draft actor t

-- What the document is bound to now, against what it was bound to before.
abbrev pub check_bound : Actor → (before now : Option ℕ) → M (Unit {0})
check_bound actor before none = pure tt
check_bound actor none (some t) = lock_draft actor t
check_bound actor (some u) (some t) = raise_if (not (u == t)) conflict

unfoldable pub delete_body : Actor → (id : ℕ) → Document → M (Unit {0})
unfolding lock_draft
delete_body actor id x = do
  lock_bound actor x.transaction_id
  locked ← map_error or_not_found (run (get_document_for_processing id))
  raise_if (not (locked.organization_id == actor.org_id)) not_found
  check_bound actor x.transaction_id locked.document.transaction_id
  rows ← run (soft_delete_document id)
  raise_if (rows == 0) not_found
  emit (codes "document") id Topic.audit
      (Payload.document_deleted actor.org_id id locked.document.file_name actor.user_id)

-- Another's document is an admin's to delete.
abbrev pub check_owner : Actor → Document → M (Unit {0})
check_owner actor x = if x.uploaded_by == actor.user_id then pure tt else check_admin actor

unfoldable pub delete : Actor → (id : ℕ) → M (Unit {0})
unfolding get_authorized delete_body
delete actor id = do
  x ← get_authorized actor id
  check_owner actor x
  exec_tx (delete_body actor id x)
