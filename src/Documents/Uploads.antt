-- ===== src/Documents/Uploads.antt =====
-- internal/service/document/service.go: uploads, which a key makes safe to repeat.
use expense.Base.{
  ℕ, suc, Bool, true, false, not, ◌||◌, ◌&&◌, ◌==◌, Option, none, some, List, [], ◌∷◌, ◌++◌, Text,
  codes, text_eq, is_some, length, ℤ, pos, ltb_ℤ, if◌then◌else◌,
}
use expense.Store.Rows.{Status, status_eq, Project, Topic, Payload}
use expense.Store.DocumentRows.{Document}
use expense.Store.World.{
  UserInfo, ok, conflict, failure, not_found, project_archived, transaction_locked,
  idempotency_key_required, idempotency_key_reused, M, pure, raise, raise_if, ◌>>=◌, ◌>>◌, run, ask,
  map_error, exec_tx,
}
use expense.Store.Transactions.{get_transaction, lock_transaction}
use expense.Store.Projects.{get_project, lock_project_for_document_upload}
use expense.Store.Documents.{
  complete_document_upload, get_document_upload_by_key, lock_document_upload,
}
use expense.Store.Reservations.{Reservation, reserve_document_upload}
use expense.Store.Outbox.{emit}
use expense.Authz.{Actor, can, check_org_write}
use expense.Approval.Submit.{or_not_found}
use expense.Ocr.{or_absent}
use expense.Documents.{Services, DocumentView, document_from}

-- The content is what can be read of it; `is_rewindable` says whether Seek succeeds.
pub record UploadInput : Type 0 where
  pub idempotency_key : ℕ
  pub file_name : Text
  pub mime_type : Text
  pub size : ℤ
  pub content : Option (List ℕ)
  pub is_rewindable : Bool

-- The project of an upload, and its transaction if there is one.
pub record Place : Type 0 where
  pub project_id : ℕ
  pub transaction_id : Option ℕ

-- constant/action.go.
abbrev pub document_upload : Text
document_upload = codes "document.upload"

abbrev pub extension_for_mime : (mime_type : Text) → Text
extension_for_mime mime =
    if text_eq mime (codes "image/jpeg")
    then codes ".jpg"
    else (if text_eq mime (codes "image/png")
        then codes ".png"
        else (if text_eq mime (codes "image/webp")
            then codes ".webp"
            else (if text_eq mime (codes "application/pdf") then codes ".pdf" else [])))

abbrev pub is_same_size : ℤ → ℤ → Bool
is_same_size a b = not (ltb_ℤ a b || ltb_ℤ b a)

abbrev pub is_hash : (hash : Text) → Option Text → Bool
is_hash hash none = false
is_hash hash (some h) = text_eq h hash

abbrev pub is_same_transaction : Option ℕ → Option ℕ → Bool
is_same_transaction none none = true
is_same_transaction none (some t) = false
is_same_transaction (some u) none = false
is_same_transaction (some u) (some t) = u == t

-- The request that the key was used for is this one.
unfoldable pub same_upload_request :
    Document → (transaction_id : Option ℕ) → UploadInput → (hash : Text) → Bool
same_upload_request x transaction input hash =
    text_eq x.file_name input.file_name
    && is_same_size x.file_size input.size
    && text_eq x.mime_type input.mime_type
    && is_hash hash x.file_hash
    && is_same_transaction x.transaction_id transaction

-- `uuid.NewV7`: an id is given once.
unfoldable pub new_id : M ℕ
new_id env w = (ok w.db.next_id, record w { db = record w.db { next_id = suc w.db.next_id } })

-- The uploader's name, email and role.
abbrev pub uploader_of : Actor → Option (List UserInfo) → Text × Text × Text
uploader_of actor none = (codes "unknown", codes "unknown", actor.role)
uploader_of actor (some []) = (codes "unknown", codes "unknown", actor.role)
uploader_of actor (some (u ∷ us)) = (u.name, u.email, u.role)

unfoldable pub uploader_snapshot : Actor → M (Text × Text × Text)
uploader_snapshot actor = do
  answer ← ask (λ env t. env.identity.get_users_info t ((actor.user_id, actor.org_id) ∷ []))
  pure (uploader_of actor answer)

-- The bytes, where as many of them as announced can be read, and read again.
abbrev pub check_size : UploadInput → List ℕ → M (List ℕ)
check_size input bytes = do
  raise_if (not (is_same_size (pos (length bytes)) input.size)) failure
  raise_if (not input.is_rewindable) failure
  pure bytes

abbrev pub read_content : UploadInput → Option (List ℕ) → M (List ℕ)
read_content input none = raise failure
read_content input (some bytes) = check_size input bytes

unfoldable pub find_upload : Actor → (project_id key : ℕ) → M (Option Document)
find_upload actor project key env w =
    or_absent (run (get_document_upload_by_key project actor.user_id key) env w)

abbrev pub check_draft : Actor → Place → Option ℕ → M (Unit {0})
check_draft actor place none = pure tt
check_draft actor place (some id) = do
  t ← map_error or_not_found (run (get_transaction id actor.org_id))
  raise_if (not (t.project_id == place.project_id)) not_found
  raise_if (not (status_eq t.status Status.draft)) transaction_locked

-- The project takes documents, and the transaction is a draft of it.
unfoldable pub check_open : Actor → Place → M (Unit {0})
check_open actor place = do
  p ← map_error or_not_found (run (get_project place.project_id actor.org_id))
  raise_if (is_some p.archived_at) project_archived
  check_draft actor place place.transaction_id

abbrev pub reservation :
    Services → Actor → Place → UploadInput → (hash : Text) → Text × Text × Text → ℕ → Reservation
reservation s actor place input hash (name, email, role) id = record {
  id = id;
  project_id = place.project_id;
  transaction_id = place.transaction_id;
  storage_path =
      s.id_text actor.org_id
      ++ codes "/"
      ++ s.id_text place.project_id
      ++ codes "/"
      ++ s.id_text id
      ++ extension_for_mime input.mime_type;
  file_name = input.file_name;
  file_size = input.size;
  mime_type = input.mime_type;
  file_hash = hash;
  uploaded_by = actor.user_id;
  uploaded_by_name = name;
  uploaded_by_email = email;
  uploaded_by_role = role;
  idempotency_key = input.idempotency_key;
}

-- A key that is there makes no row, which is no error.
unfoldable pub try_reserve : Reservation → M (Option ℕ)
try_reserve r env w = or_absent (run (reserve_document_upload r) env w)

unfoldable pub reserve_body : Actor → Place → UploadInput → (hash : Text) → Reservation → M Document
unfolding try_reserve
reserve_body actor place input hash r = do
  locked ←
      map_error or_not_found (run (lock_project_for_document_upload place.project_id actor.org_id))
  raise_if (is_some locked.archived_at) project_archived
  try_reserve r
  x ← run (get_document_upload_by_key place.project_id actor.user_id input.idempotency_key)
  raise_if (not (same_upload_request x place.transaction_id input hash) || is_some x.deleted_at)
      idempotency_key_reused
  pure x

abbrev pub check_locked_draft : Actor → Place → Option ℕ → M (Unit {0})
check_locked_draft actor place none = pure tt
check_locked_draft actor place (some id) = do
  t ← run (lock_transaction id)
  raise_if
      (not (t.organization_id == actor.org_id)
        || not (t.project_id == place.project_id)
        || is_some t.deleted_at)
      not_found
  raise_if (not (status_eq t.status Status.draft)) transaction_locked

unfoldable pub complete_row : Actor → Place → (upload : Document) → Document → M Document
complete_row actor place upload x = do
  rows ← run (complete_document_upload x.id)
  raise_if (rows == 0) conflict
  emit (codes "document") x.id Topic.audit (
      Payload.document_created actor.org_id x.id place.project_id upload.transaction_id
        upload.file_name upload.file_size actor.user_id)
  pure x

-- Another request with the key may have completed the upload.
abbrev pub complete_once : Actor → Place → (upload : Document) → Document → M Document
complete_once actor place upload x =
    if x.upload_complete then pure x else complete_row actor place upload x

unfoldable pub complete_body : Actor → Place → (upload : Document) → M Document
unfolding complete_row
complete_body actor place upload = do
  locked ← run (lock_project_for_document_upload place.project_id actor.org_id)
  raise_if (is_some locked.archived_at) project_archived
  check_locked_draft actor place place.transaction_id
  x ← run (lock_document_upload upload.id)
  complete_once actor place upload x

unfoldable pub store_and_complete :
    Services → Actor → Place → UploadInput → List ℕ → (upload : Document) → M DocumentView
unfolding check_open complete_body
store_and_complete s actor place input bytes upload = do
  check_open actor place
  stored ← ask (λ env t. s.storage.put t upload.storage_path input.size input.mime_type bytes)
  raise_if (not stored) failure
  completed ← exec_tx (complete_body actor place upload)
  document_from s completed

abbrev pub after_reserve :
    Services → Actor → Place → UploadInput → List ℕ → (upload : Document) → M DocumentView
after_reserve s actor place input bytes upload =
    if upload.upload_complete
    then document_from s upload
    else store_and_complete s actor place input bytes upload

unfoldable pub reserve_and_store : Services → Actor → Place → UploadInput → List ℕ → M DocumentView
unfolding check_open uploader_snapshot new_id reserve_body store_and_complete
reserve_and_store s actor place input bytes = do
  check_open actor place
  who ← uploader_snapshot actor
  id ← new_id
  upload ← exec_tx (
      reserve_body actor place input (s.hash bytes)
        (reservation s actor place input (s.hash bytes) who id))
  after_reserve s actor place input bytes upload

-- What the key was used for before.
abbrev pub after_lookup :
    Services → Actor → Place → UploadInput → List ℕ → Option Document → M DocumentView
after_lookup s actor place input bytes none = reserve_and_store s actor place input bytes
after_lookup s actor place input bytes (some x) =
    if not (same_upload_request x place.transaction_id input (s.hash bytes)) || is_some x.deleted_at
    then raise idempotency_key_reused
    else (if x.upload_complete
        then document_from s x
        else reserve_and_store s actor place input bytes)

unfoldable pub upload : Services → Actor → Place → UploadInput → M DocumentView
unfolding find_upload reserve_and_store
upload s actor place input = do
  raise_if (input.idempotency_key == 0) idempotency_key_required
  bytes ← read_content input input.content
  existing ← find_upload actor place.project_id input.idempotency_key
  after_lookup s actor place input bytes existing

unfoldable pub load_project : Actor → (project_id : ℕ) → M Project
load_project actor project = do
  p ← map_error or_not_found (run (get_project project actor.org_id))
  check_org_write actor
  can actor p.id document_upload
  pure p

unfoldable pub upload_to_project :
    Services → Actor → (project_id : ℕ) → UploadInput → M DocumentView
unfolding load_project upload
upload_to_project s actor project input = do
  p ← load_project actor project
  upload s actor (record { project_id = p.id; transaction_id = none }) input

unfoldable pub attach_to_transaction :
    Services → Actor → (transaction_id : ℕ) → UploadInput → M DocumentView
unfolding upload
attach_to_transaction s actor id input = do
  check_org_write actor
  t ← map_error or_not_found (run (get_transaction id actor.org_id))
  can actor t.project_id document_upload
  upload s actor (record { project_id = t.project_id; transaction_id = some id }) input
