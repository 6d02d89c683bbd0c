-- ===== src/Documents/Changes.antt =====
-- What an upload keeps, by what its statements keep, and the requests on documents in any order.
use expense.Base.{
  ℕ, ◌==◌, not, ◌||◌, Bool, true, false, if◌then◌else◌, Option, none, some, List, Text, is_some,
  length, pos,
}
use expense.Store.Rows.{Status, status_eq}
use expense.Store.DocumentRows.{Document}
use expense.Store.World.{
  Db, Env, World, M, failure, not_found, project_archived, transaction_locked,
  idempotency_key_required, idempotency_key_reused,
}
use expense.Store.Hoare.{Triple, bind}
use expense.Store.Keeps.{
  Keeps, Keeps-bind, Keeps-run, Keeps-map_error, Keeps-raise_if, Keeps-raise, Keeps-pure, Keeps-ask,
  Keeps-exec_tx,
}
use expense.Store.Frames.{of_keeps}
use expense.Store.Transactions.{get_transaction, lock_transaction}
use expense.Store.Projects.{get_project, lock_project_for_document_upload}
use expense.Store.Documents.{get_document_upload_by_key, lock_document_upload}
use expense.Store.Reservations.{Reservation, reserve_document_upload}
use expense.Authz.{Actor}
use expense.Approval.Submit.{or_not_found}
use expense.Approval.Valid.Access.{check_org_write-Keeps, can-Keeps}
use expense.Documents
use expense.Documents.{Services, DocumentView}
use expense.Documents.Uploads.{
  UploadInput, Place, document_upload, is_same_size, same_upload_request, new_id, uploader_snapshot,
  read_content, find_upload, check_draft, check_open, reservation, try_reserve, reserve_body,
  check_locked_draft, complete_once, complete_body, store_and_complete, after_reserve,
  reserve_and_store, after_lookup, upload, load_project, upload_to_project, attach_to_transaction,
}
use expense.Documents.Kept.{
  DocumentsKept, or_absent-Keeps, if-Keeps, document_from-Keeps, get-Keeps, delete-Keeps,
  list_by_project-Keeps, list_by_transaction-Keeps,
}

module _ {P : Db → Type 0} where
  pub read_content-Keeps :
      (input : UploadInput) (content : Option (List ℕ)) → Keeps P (read_content input content)
  read_content-Keeps input none = Keeps-raise failure
  read_content-Keeps input (some bytes) =
      Keeps-bind (Keeps-raise_if (not (is_same_size (pos (length bytes)) input.size)) failure)
        (λ _. Keeps-bind (Keeps-raise_if (not input.is_rewindable) failure) (λ _. Keeps-pure bytes))

  find_upload-Keeps : (actor : Actor) (project key : ℕ) → Keeps P (find_upload actor project key)
  unfolding find_upload get_document_upload_by_key
  find_upload-Keeps actor project key =
      or_absent-Keeps
        (Keeps-run (get_document_upload_by_key project actor.user_id key) (λ now d h. h))

  check_draft-Keeps :
      (actor : Actor) (place : Place) (t : Option ℕ) → Keeps P (check_draft actor place t)
  unfolding get_transaction
  check_draft-Keeps actor place none = Keeps-pure tt
  check_draft-Keeps actor place (some id) =
      Keeps-bind
        (Keeps-map_error or_not_found _
          (Keeps-run (get_transaction id actor.org_id) (λ now d h. h)))
        (λ t.
          Keeps-bind (Keeps-raise_if (not (t.project_id == place.project_id)) not_found)
            (λ _. Keeps-raise_if (not (status_eq t.status Status.draft)) transaction_locked))

  check_open-Keeps : (actor : Actor) (place : Place) → Keeps P (check_open actor place)
  unfolding check_open get_project
  check_open-Keeps actor place =
      Keeps-bind
        (Keeps-map_error or_not_found _
          (Keeps-run (get_project place.project_id actor.org_id) (λ now d h. h)))
        (λ p.
          Keeps-bind (Keeps-raise_if (is_some p.archived_at) project_archived)
            (λ _. check_draft-Keeps actor place place.transaction_id))

  check_locked_draft-Keeps :
      (actor : Actor) (place : Place) (t : Option ℕ) → Keeps P (check_locked_draft actor place t)
  unfolding lock_transaction
  check_locked_draft-Keeps actor place none = Keeps-pure tt
  check_locked_draft-Keeps actor place (some id) =
      Keeps-bind (Keeps-run (lock_transaction id) (λ now d h. h)) (λ t.
        Keeps-bind
          (Keeps-raise_if
            (not (t.organization_id == actor.org_id)
              || not (t.project_id == place.project_id)
              || is_some t.deleted_at)
            not_found)
          (λ _. Keeps-raise_if (not (status_eq t.status Status.draft)) transaction_locked))

  uploader_uploader_snapshot-Keeps : (actor : Actor) → Keeps P (uploader_snapshot actor)
  unfolding uploader_snapshot
  uploader_uploader_snapshot-Keeps actor = Keeps-bind (Keeps-ask _) (λ answer. Keeps-pure _)

  load_project-Keeps : (actor : Actor) (project : ℕ) → Keeps P (load_project actor project)
  unfolding load_project get_project
  load_project-Keeps actor project =
      Keeps-bind
        (Keeps-map_error or_not_found _
          (Keeps-run (get_project project actor.org_id) (λ now d h. h)))
        (λ p.
          Keeps-bind (check_org_write-Keeps actor)
            (λ _. Keeps-bind (can-Keeps actor p.id document_upload) (λ _. Keeps-pure p)))

module _ {P : Db → Type 0} (k : DocumentsKept P) where
  new_id-Keeps : Keeps P new_id
  unfolding new_id
  new_id-Keeps = record { holds = λ env w h. k.id_taken w.db h }

  reserve_body-Keeps :
      (actor : Actor) (place : Place) (input : UploadInput) (hash : Text) (r : Reservation)
      → Keeps P (reserve_body actor place input hash r)
  unfolding reserve_body try_reserve lock_project_for_document_upload get_document_upload_by_key
  reserve_body-Keeps actor place input hash r =
      Keeps-bind
        (Keeps-map_error or_not_found _ (
          Keeps-run (lock_project_for_document_upload place.project_id actor.org_id)
            (λ now d h. h)))
        (λ locked. Keeps-bind (Keeps-raise_if (is_some locked.archived_at) project_archived) (λ _.
          Keeps-bind (or_absent-Keeps (Keeps-run (reserve_document_upload r) (k.reserved r))) (λ _.
            Keeps-bind
              (Keeps-run
                (get_document_upload_by_key place.project_id actor.user_id input.idempotency_key)
                (λ now d h. h))
              (λ x.
                Keeps-bind
                  (Keeps-raise_if
                    (not (same_upload_request x place.transaction_id input hash)
                      || is_some x.deleted_at)
                    idempotency_key_reused)
                  (λ _. Keeps-pure x)))))

  complete_once-kept :
      (actor : Actor) (place : Place) (upload x : Document)
      → Triple P (complete_once actor place upload x) (λ _ d. P d)
  complete_once-kept actor place upload x =
      choice x.upload_complete (of_keeps (Keeps-pure x)) (k.completed actor place upload x)
    where
      choice :
          {m n : M Document} (c : Bool)
          → Triple P m (λ _ d. P d)
          → Triple P n (λ _ d. P d)
          → Triple P (if c then m else n) (λ _ d. P d)
      choice true h k = h
      choice false h k = k

  complete_body-kept :
      (actor : Actor) (place : Place) (upload : Document)
      → Triple P (complete_body actor place upload) (λ _ d. P d)
  unfolding complete_body lock_project_for_document_upload lock_document_upload
  complete_body-kept actor place upload =
      bind
        (of_keeps (
          Keeps-run (lock_project_for_document_upload place.project_id actor.org_id)
            (λ now d h. h)))
        (λ locked.
          bind (of_keeps (Keeps-raise_if (is_some locked.archived_at) project_archived)) (λ _.
            bind (of_keeps (check_locked_draft-Keeps actor place place.transaction_id)) (λ _.
              bind (of_keeps (Keeps-run (lock_document_upload upload.id) (λ now d h. h)))
                (λ x. complete_once-kept actor place upload x))))

  module _ (s : Services) (actor : Actor) (place : Place) (input : UploadInput) where
    store_and_complete-Keeps :
        (bytes : List ℕ) (upload : Document)
        → Keeps P (store_and_complete s actor place input bytes upload)
    unfolding store_and_complete
    store_and_complete-Keeps bytes upload = Keeps-bind (check_open-Keeps actor place) (λ _.
        Keeps-bind (Keeps-ask _) (λ stored. Keeps-bind (Keeps-raise_if (not stored) failure) (λ _.
          Keeps-bind (Keeps-exec_tx (complete_body-kept actor place upload))
            (λ x. document_from-Keeps k s x))))

    after_reserve-Keeps :
        (bytes : List ℕ) (upload : Document)
        → Keeps P (after_reserve s actor place input bytes upload)
    after_reserve-Keeps bytes upload =
        if-Keeps upload.upload_complete (document_from-Keeps k s upload)
          (store_and_complete-Keeps bytes upload)

    reserve_and_store-Keeps :
        (bytes : List ℕ) → Keeps P (reserve_and_store s actor place input bytes)
    unfolding reserve_and_store
    reserve_and_store-Keeps bytes = Keeps-bind (check_open-Keeps actor place) (λ _.
        Keeps-bind (uploader_uploader_snapshot-Keeps actor) (λ who. Keeps-bind new_id-Keeps (λ id.
          Keeps-bind
            (Keeps-exec_tx (
              of_keeps (
                reserve_body-Keeps actor place input (s.hash bytes)
                  (reservation s actor place input (s.hash bytes) who id))))
            (λ upload. after_reserve-Keeps bytes upload))))

    after_lookup-Keeps :
        (bytes : List ℕ) (existing : Option Document)
        → Keeps P (after_lookup s actor place input bytes existing)
    after_lookup-Keeps bytes none = reserve_and_store-Keeps bytes
    after_lookup-Keeps bytes (some x) =
        if-Keeps
          (not (same_upload_request x place.transaction_id input (s.hash bytes))
            || is_some x.deleted_at)
          (Keeps-raise idempotency_key_reused)
          (if-Keeps x.upload_complete (document_from-Keeps k s x) (reserve_and_store-Keeps bytes))

    upload-Keeps : Keeps P (upload s actor place input)
    unfolding upload
    upload-Keeps =
        Keeps-bind (Keeps-raise_if (input.idempotency_key == 0) idempotency_key_required) (λ _.
          Keeps-bind (read_content-Keeps input input.content) (λ bytes.
            Keeps-bind (find_upload-Keeps actor place.project_id input.idempotency_key)
              (λ existing. after_lookup-Keeps bytes existing)))

  upload_to_project-Keeps :
      (s : Services) (actor : Actor) (project : ℕ) (input : UploadInput)
      → Keeps P (upload_to_project s actor project input)
  unfolding upload_to_project
  upload_to_project-Keeps s actor project input =
      Keeps-bind (load_project-Keeps actor project)
        (λ p. upload-Keeps s actor (record { project_id = p.id; transaction_id = none }) input)

  attach_to_transaction-Keeps :
      (s : Services) (actor : Actor) (id : ℕ) (input : UploadInput)
      → Keeps P (attach_to_transaction s actor id input)
  unfolding attach_to_transaction get_transaction
  attach_to_transaction-Keeps s actor id input = Keeps-bind (check_org_write-Keeps actor) (λ _.
      Keeps-bind
        (Keeps-map_error or_not_found _
          (Keeps-run (get_transaction id actor.org_id) (λ now d h. h)))
        (λ t. Keeps-bind (can-Keeps actor t.project_id document_upload) (λ _.
          upload-Keeps s actor (record { project_id = t.project_id; transaction_id = some id })
            input)))

pub data DocumentRequest : Type 0 where
  into_project into_transaction : (id : ℕ) → UploadInput → DocumentRequest
  get list_by_project list_by_transaction delete : (id : ℕ) → DocumentRequest

unfoldable pub after_request : Services → Actor → DocumentRequest → Env → World → Db
after_request s a (DocumentRequest.into_project id input) env w =
    (upload_to_project s a id input env w).1.db
after_request s a (DocumentRequest.into_transaction id input) env w =
    (attach_to_transaction s a id input env w).1.db
after_request s a (DocumentRequest.get id) env w = (Documents.get s a id env w).1.db
after_request s a (DocumentRequest.list_by_project id) env w =
    (Documents.list_by_project s a id env w).1.db
after_request s a (DocumentRequest.list_by_transaction id) env w =
    (Documents.list_by_transaction s a id env w).1.db
after_request s a (DocumentRequest.delete id) env w = (Documents.delete a id env w).1.db

-- A request keeps what its statements keep, whether it succeeds or fails.
pub after_request-Keeps :
    {P : Db → Type 0}
    → DocumentsKept P
    → (s : Services) (a : Actor) (request : DocumentRequest) (env : Env) (w : World) → P w.db
    → P (after_request s a request env w)
unfolding after_request
after_request-Keeps k s a (DocumentRequest.into_project id input) env w h =
    (upload_to_project-Keeps k s a id input).holds env w h
after_request-Keeps k s a (DocumentRequest.into_transaction id input) env w h =
    (attach_to_transaction-Keeps k s a id input).holds env w h
after_request-Keeps k s a (DocumentRequest.get id) env w h = (get-Keeps k s a id).holds env w h
after_request-Keeps {P} k s a (DocumentRequest.list_by_project id) env w h =
    (list_by_project-Keeps {P = P} s a id).holds env w h
after_request-Keeps {P} k s a (DocumentRequest.list_by_transaction id) env w h =
    (list_by_transaction-Keeps {P = P} s a id).holds env w h
after_request-Keeps k s a (DocumentRequest.delete id) env w h = (delete-Keeps k a id).holds env w h

-- The databases that requests on documents reach, taken one after the other.
pub data DocumentsReachable (s : Services) (start : Db) : Db → Type 0 where
  here : DocumentsReachable s start start
  after :
      (w : World)
      → DocumentsReachable s start w.db
      → (a : Actor) (request : DocumentRequest) (env : Env)
      → DocumentsReachable s start (after_request s a request env w)

pub reachable-Keeps :
    {P : Db → Type 0} {s : Services} {start d : Db}
    → DocumentsKept P
    → DocumentsReachable s start d
    → P start
    → P d
reachable-Keeps k DocumentsReachable.here h = h
reachable-Keeps {s} k (DocumentsReachable.after w r a request env) h =
    after_request-Keeps k s a request env w (reachable-Keeps k r h)
