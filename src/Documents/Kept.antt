-- ===== src/Documents/Kept.antt =====
-- What the statements on documents keep, each in the place where the service runs it, and what a
-- document's calls of other services keep.
use expense.Base.{
  ℕ, suc, ◌==◌, not, ◌||◌, if◌then◌else◌, Option, none, some, List, [], ◌∷◌, Text, is_some, Bool,
  true, false, inl, inr, Bool-cases, any, ◌++◌, ◌≡◌,
}
use expense.Store.Rows.{Status, status_eq, Topic, Payload}
use expense.Store.DocumentRows.{Document}
use expense.Store.World.{Db, World, Result, ok, err, M, conflict, not_found, transaction_locked}
use expense.Store.Hoare.{Triple}
use expense.Store.Keeps.{
  Keeps, Keeps-bind, Keeps-run, Keeps-map_error, Keeps-raise_if, Keeps-pure, Keeps-ask,
  Keeps-exec_tx,
}
use expense.Store.Frames.{of_keeps}
use expense.Store.Transactions.{get_transaction, lock_transaction}
use expense.Store.Projects.{get_project}
use expense.Store.Documents.{
  is_of_key, get_document, get_document_for_processing, list_documents_by_project,
  list_documents_by_transaction, set_ocr_document_id, soft_delete_document,
}
use expense.Store.Reservations.{
  Reservation, reserve_document_upload, reserved_row, exceeds_columns, has_project, has_transaction,
}
use expense.Store.Outbox.{emit, create_outbox_event}
use expense.Authz.{Actor, transaction_view}
use expense.Approval.Submit.{or_not_found}
use expense.Approval.Valid.Access.{check_admin-Keeps, can-Keeps}
use expense.Ocr.{or_absent}
use expense.Ocr.Sweep.{job_of}
use expense.Documents.{
  Services, file_url, with_url, with_urls, ignored, save_job, submit_ocr, document_from,
  get_authorized, get, load_project_for_view, list_by_project, list_by_transaction, lock_draft,
  lock_bound, check_bound, delete_body, check_owner, delete,
}
use expense.Documents.Uploads.{Place, complete_row}

pub record DocumentsKept (P : Db → Type 0) : Type 0 where
  pub id_taken : (d : Db) → P d → P (record d { next_id = suc d.next_id })
  pub reserved : (r : Reservation) (now : ℕ) (d : Db) → P d → P (reserve_document_upload r now d).1
  pub job_saved : (id job now : ℕ) (d : Db) → P d → P (set_ocr_document_id id job now d).1
  pub deleted : (id now : ℕ) (d : Db) → P d → P (soft_delete_document id now d).1
  pub emitted :
      (kind : Text) (aggregate : ℕ) (topic : Topic) (payload : Payload) (now : ℕ) (d : Db)
      → P d
      → P (create_outbox_event kind aggregate topic payload now d).1
  pub completed :
      (actor : Actor) (place : Place) (upload x : Document)
      → Triple P (complete_row actor place upload x) (λ _ d. P d)

-- A reservation changes nothing, or adds a row for a key that no row has.
pub reserve-cases :
    (P : Db → Type 0) (r : Reservation) (now : ℕ) (d : Db)
    → P d
    → (any (is_of_key r.project_id r.uploaded_by r.idempotency_key) d.documents ≡ false
        → P (record d { documents = d.documents ++ reserved_row now r ∷ [] }))
    → P (reserve_document_upload r now d).1
unfolding reserve_document_upload
reserve-cases P r now d h k = elim (Bool-cases (exceeds_columns r)) [
  | inl e ↦ rw e h
  | inr e ↦
      elim (Bool-cases (any (is_of_key r.project_id r.uploaded_by r.idempotency_key) d.documents)) [
        | inl f ↦ rw (e, f) h
        | inr f ↦
            elim (Bool-cases (
              not (has_project d.projects r.project_id)
              || not (has_transaction d.transactions r.transaction_id)
              || any (λ (x : Document). x.id == r.id) d.documents)) [
                | inl g ↦ rw (e, f, g) h
                | inr g ↦ rw (e, f, g) (k f)
              ]
      ]
]

module _ {P : Db → Type 0} where
  -- A query that finds no row, and an error that is logged.
  pub or_absent-Keeps : {A : Type 0} {m : M A} → Keeps P m → Keeps P (λ env w. or_absent (m env w))
  or_absent-Keeps {m} k = record { holds = λ env w h. same P (m env w) (k.holds env w h) }
    where
      same : {A : Type 0} (P : Db → Type 0) (r : Result A × World) → P r.1.db → P (or_absent r).1.db
      same P (ok x, w) h = h
      same P (err e, w) h = h

  pub ignored-Keeps : {A : Type 0} {m : M A} → Keeps P m → Keeps P (λ env w. ignored (m env w))
  ignored-Keeps {m} k = record { holds = λ env w h. same P (m env w) (k.holds env w h) }
    where
      same : {A : Type 0} (P : Db → Type 0) (r : Result A × World) → P r.1.db → P (ignored r).1.db
      same P (ok x, w) h = h
      same P (err e, w) h = h

  pub if-Keeps :
      {A : Type 0} {m n : M A} (c : Bool) → Keeps P m → Keeps P n → Keeps P (if c then m else n)
  if-Keeps true h k = h
  if-Keeps false h k = k

  with_url-Keeps : (s : Services) (x : Document) → Keeps P (with_url s x)
  unfolding with_url file_url
  with_url-Keeps s x =
      Keeps-bind (Keeps-bind (Keeps-ask _) (λ url. Keeps-pure _)) (λ url. Keeps-pure _)

  with_urls-Keeps : (s : Services) (xs : List Document) → Keeps P (with_urls s xs)
  unfolding with_urls
  with_urls-Keeps s [] = Keeps-pure []
  with_urls-Keeps s (x ∷ xs) =
      Keeps-bind (with_url-Keeps s x)
        (λ here. Keeps-bind (with_urls-Keeps s xs) (λ rest. Keeps-pure (here ∷ rest)))

  get_authorized-Keeps : (actor : Actor) (id : ℕ) → Keeps P (get_authorized actor id)
  unfolding get_authorized get_document
  get_authorized-Keeps actor id =
      Keeps-bind
        (Keeps-map_error or_not_found _ (Keeps-run (get_document id actor.org_id) (λ now d h. h)))
        (λ x. Keeps-bind (can-Keeps actor x.project_id transaction_view) (λ _. Keeps-pure x))

  lock_draft-Keeps : (actor : Actor) (id : ℕ) → Keeps P (lock_draft actor id)
  unfolding lock_draft lock_transaction
  lock_draft-Keeps actor id =
      Keeps-bind (Keeps-map_error or_not_found _ (Keeps-run (lock_transaction id) (λ now d h. h)))
        (λ t.
          Keeps-bind
            (Keeps-raise_if (not (t.organization_id == actor.org_id) || is_some t.deleted_at)
              not_found)
            (λ _. Keeps-raise_if (not (status_eq t.status Status.draft)) transaction_locked))

  lock_bound-Keeps : (actor : Actor) (t : Option ℕ) → Keeps P (lock_bound actor t)
  lock_bound-Keeps actor none = Keeps-pure tt
  lock_bound-Keeps actor (some t) = lock_draft-Keeps actor t

  check_bound-Keeps : (actor : Actor) (u t : Option ℕ) → Keeps P (check_bound actor u t)
  check_bound-Keeps actor u none = Keeps-pure tt
  check_bound-Keeps actor none (some t) = lock_draft-Keeps actor t
  check_bound-Keeps actor (some u) (some t) = Keeps-raise_if (not (u == t)) conflict

  check_owner-Keeps : (actor : Actor) (x : Document) → Keeps P (check_owner actor x)
  check_owner-Keeps actor x =
      if-Keeps (x.uploaded_by == actor.user_id) (Keeps-pure tt) (check_admin-Keeps actor)

  pub list_by_project-Keeps :
      (s : Services) (actor : Actor) (project : ℕ) → Keeps P (list_by_project s actor project)
  unfolding list_by_project load_project_for_view get_project list_documents_by_project
  list_by_project-Keeps s actor project =
      Keeps-bind
        (Keeps-bind
          (Keeps-map_error or_not_found _
            (Keeps-run (get_project project actor.org_id) (λ now d h. h)))
          (λ p. Keeps-bind (can-Keeps actor p.id transaction_view) (λ _. Keeps-pure p)))
        (λ _.
          Keeps-bind (Keeps-run (list_documents_by_project project) (λ now d h. h))
            (λ rows. with_urls-Keeps s rows))

  pub list_by_transaction-Keeps :
      (s : Services) (actor : Actor) (id : ℕ) → Keeps P (list_by_transaction s actor id)
  unfolding list_by_transaction get_transaction list_documents_by_transaction
  list_by_transaction-Keeps s actor id =
      Keeps-bind
        (Keeps-map_error or_not_found _
          (Keeps-run (get_transaction id actor.org_id) (λ now d h. h)))
        (λ t. Keeps-bind (can-Keeps actor t.project_id transaction_view) (λ _.
          Keeps-bind (Keeps-run (list_documents_by_transaction id) (λ now d h. h))
            (λ rows. with_urls-Keeps s rows)))

module _ {P : Db → Type 0} (k : DocumentsKept P) where
  pub emit-Keeps :
      (kind : Text) (aggregate : ℕ) (topic : Topic) (payload : Payload)
      → Keeps P (emit kind aggregate topic payload)
  unfolding emit
  emit-Keeps kind aggregate topic payload =
      Keeps-run (create_outbox_event kind aggregate topic payload)
        (k.emitted kind aggregate topic payload)

  save_job-Keeps : (id : ℕ) (job : Option ℕ) → Keeps P (save_job id job)
  save_job-Keeps id none = record { holds = λ env w h. h }
  save_job-Keeps id (some job) =
      ignored-Keeps (Keeps-run (set_ocr_document_id id job) (k.job_saved id job))

  pub document_from-Keeps : (s : Services) (x : Document) → Keeps P (document_from s x)
  unfolding document_from submit_ocr
  document_from-Keeps s x =
      Keeps-bind
        (Keeps-bind (Keeps-ask _) (λ answer. save_job-Keeps x.id (job_of s.gateway answer)))
        (λ _. with_url-Keeps s x)

  pub get-Keeps : (s : Services) (actor : Actor) (id : ℕ) → Keeps P (get s actor id)
  unfolding get
  get-Keeps s actor id =
      Keeps-bind (get_authorized-Keeps actor id)
        (λ x. Keeps-bind (Keeps-exec_tx (of_keeps (emit-Keeps _ _ _ _))) (λ _. with_url-Keeps s x))

  delete_body-Keeps : (actor : Actor) (id : ℕ) (x : Document) → Keeps P (delete_body actor id x)
  unfolding delete_body get_document_for_processing
  delete_body-Keeps actor id x = Keeps-bind (lock_bound-Keeps actor x.transaction_id) (λ _.
      Keeps-bind
        (Keeps-map_error or_not_found _ (Keeps-run (get_document_for_processing id) (λ now d h. h)))
        (λ locked.
          Keeps-bind (Keeps-raise_if (not (locked.organization_id == actor.org_id)) not_found) (λ _.
            Keeps-bind (check_bound-Keeps actor x.transaction_id locked.document.transaction_id)
              (λ _. Keeps-bind (Keeps-run (soft_delete_document id) (k.deleted id)) (λ rows.
                Keeps-bind (Keeps-raise_if (rows == 0) not_found) (λ _. emit-Keeps _ _ _ _))))))

  pub delete-Keeps : (actor : Actor) (id : ℕ) → Keeps P (delete actor id)
  unfolding delete
  delete-Keeps actor id = Keeps-bind (get_authorized-Keeps actor id) (λ x.
      Keeps-bind (check_owner-Keeps actor x)
        (λ _. Keeps-exec_tx (of_keeps (delete_body-Keeps actor id x))))
