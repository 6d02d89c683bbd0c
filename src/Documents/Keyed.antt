-- ===== src/Documents/Keyed.antt =====
-- One document for each project, uploader and key.
use expense.Base.{
  ◌==◌, ◌≡◌, arith, false, true, not, ◌&&◌, none, some, All-every, Bool, Pairwise, Pairwise-snoc,
  Pairwise-update, All-of_any-false, is_none,
}
use expense.Store.DocumentRows.{Document}
use expense.Store.World.{Db, conflict}
use expense.Store.Hoare.{Triple}
use expense.Store.Keeps.{Keeps-raise_if, Keeps-run, Keeps-bind, Keeps-pure}
use expense.Store.Frames.{of_keeps}
use expense.Store.Documents.{
  is_of_key, is_document, complete_document_upload, set_ocr_document_id, soft_delete_document,
}
use expense.Store.Reservations.{reserved_row}
use expense.Store.Outbox.{emit, create_outbox_event}
use expense.Authz.{Actor}
use expense.Documents.{Services}
use expense.Documents.Uploads.{Place, complete_row}
use expense.Documents.Kept.{DocumentsKept, reserve-cases}
use expense.Documents.Changes.{DocumentsReachable, reachable-Keeps}

-- The second document has the key of the first, if that has one.
abbrev pub has_key_of : Document → Document → Bool
has_key_of x y = elim y.idempotency_key [
  | none ↦ false
  | some k ↦ is_of_key y.project_id y.uploaded_by k x
]

abbrev pub IsKeyedOnce : Db → Type 0
IsKeyedOnce d = Pairwise (λ (x y : Document). has_key_of x y ≡ false) d.documents

completed :
    (actor : Actor) (place : Place) (upload x : Document)
    → Triple IsKeyedOnce (complete_row actor place upload x) (λ _ d. IsKeyedOnce d)
unfolding complete_row emit complete_document_upload create_outbox_event
completed actor place upload x = of_keeps (
    Keeps-bind
      (Keeps-run (complete_document_upload x.id) (λ now d h.
        Pairwise-update {P = λ _. Unit {0}}
          (λ (y : Document). y.id == x.id && not y.upload_complete && is_none y.deleted_at)
          (λ y. record y { upload_complete = true }) d.documents (λ a b _ _ k. ground (arith, k))
          (All-every d.documents (λ _. tt)) h))
      (λ rows. Keeps-bind (Keeps-raise_if (rows == 0) conflict) (λ _.
        Keeps-bind (Keeps-run (create_outbox_event _ _ _ _) (λ now d h. h)) (λ _. Keeps-pure x))))

keyed-kept : DocumentsKept IsKeyedOnce
unfolding set_ocr_document_id soft_delete_document create_outbox_event
keyed-kept = record {
  id_taken = λ d h. h;
  reserved = λ r now d h. reserve-cases IsKeyedOnce r now d h (λ e.
      Pairwise-snoc d.documents (reserved_row now r) h
        (All-of_any-false (is_of_key r.project_id r.uploaded_by r.idempotency_key) d.documents e));
  job_saved = λ id job now d h.
      Pairwise-update {P = λ _. Unit {0}}
        (λ (x : Document). is_document id x && is_none x.ocr_document_id)
        (λ x. record x { ocr_document_id = some job }) d.documents (λ a b _ _ k. ground (arith, k))
        (All-every d.documents (λ _. tt)) h;
  deleted = λ id now d h.
      Pairwise-update {P = λ _. Unit {0}} (is_document id)
        (λ (x : Document). record x { deleted_at = some now }) d.documents
        (λ a b _ _ k. ground (arith, k)) (All-every d.documents (λ _. tt)) h;
  emitted = λ kind aggregate topic payload now d h. h;
  completed = completed;
}

-- No two documents of one project and uploader have one idempotency key, in every database that
-- requests on documents reach from one where it is so, whatever fails in them.
pub reachable-IsKeyedOnce :
    {s : Services} {start d : Db} → DocumentsReachable s start d → IsKeyedOnce start → IsKeyedOnce d
reachable-IsKeyedOnce r h = reachable-Keeps keyed-kept r h
