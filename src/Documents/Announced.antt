-- ===== src/Documents/Announced.antt =====
-- A document that is uploaded is announced in the outbox, in the transaction that completes it.
use expense.Base.{
  ℕ, ◌==◌, ◌≡◌, refl, arith, true, false, not, ◌&&◌, ◌||◌, Bool, List, [], ◌∷◌, ◌++◌, Text, All,
  All-snoc, All-map, All-update, any, is_none, Option, some, ℤ,
}
use expense.Store.Rows.{Topic, Payload, OutboxEvent}
use expense.Store.DocumentRows.{Document}
use expense.Store.World.{Db, conflict}
use expense.Store.Hoare.{Triple, bind, weaken, run_rule, pure_rule}
use expense.Store.Keeps.{Keeps-raise_if}
use expense.Store.Frames.{of_keeps}
use expense.Store.Documents.{
  is_document, complete_document_upload, set_ocr_document_id, soft_delete_document,
}
use expense.Store.Reservations.{Reservation, reserved_row, reserve_document_upload}
use expense.Store.Outbox.{event_row, emit, create_outbox_event}
use expense.Authz.{Actor}
use expense.Documents.{Services}
use expense.Documents.Uploads.{Place, complete_row}
use expense.Documents.Kept.{DocumentsKept, reserve-cases}
use expense.Documents.Changes.{DocumentsReachable, reachable-Keeps}

-- The event says that the document was uploaded.
abbrev pub says_created : (document_id : ℕ) → Payload → Bool
says_created id (Payload.document_created org x project transaction name size actor) = x == id
says_created id payload = false

abbrev pub announces : (document_id : ℕ) → OutboxEvent → Bool
announces id e = says_created id e.payload

-- An uploaded document has its event.
abbrev pub IsAnnounced : List OutboxEvent → Document → Type 0
IsAnnounced outbox x = (x.upload_complete && not (any (announces x.id) outbox)) ≡ false

abbrev pub AreAnnounced : Db → Type 0
AreAnnounced d = All (IsAnnounced d.outbox) d.documents

-- The same but for one document, whose event comes next.
abbrev AreAnnouncedBut : (document_id : ℕ) → Db → Type 0
AreAnnouncedBut id d =
    All
      (λ (x : Document).
        (not (x.id == id) && x.upload_complete && not (any (announces x.id) d.outbox)) ≡ false)
      d.documents

any-snoc :
    (p : OutboxEvent → Bool) (xs : List OutboxEvent) (y : OutboxEvent)
    → any p (xs ++ y ∷ []) ≡ (any p xs || p y)
any-snoc p [] y = ground arith
any-snoc p (x ∷ xs) y = ground (arith, any-snoc p xs y)

emitted :
    (kind : Text) (aggregate : ℕ) (topic : Topic) (payload : Payload) (now : ℕ) (d : Db)
    → AreAnnounced d
    → AreAnnounced (create_outbox_event kind aggregate topic payload now d).1
unfolding create_outbox_event
emitted kind aggregate topic payload now d h =
    All-map d.documents
      (λ x k. ground (
        arith,
        k,
        any-snoc (announces x.id) d.outbox (event_row now d.next_id kind aggregate topic payload),
      ))
      h

completed_but :
    (id now : ℕ) (d : Db)
    → AreAnnounced d
    → AreAnnouncedBut id (complete_document_upload id now d).1
unfolding complete_document_upload
completed_but id now d h =
    All-update (λ x. x.id == id && not x.upload_complete && is_none x.deleted_at)
      (λ x. record x { upload_complete = true }) d.documents (λ x e k. ground (arith, e, k))
      (λ x e k. ground (arith, k)) h

announced_now :
    (kind : Text) (aggregate : ℕ) (topic : Topic) (org id project : ℕ) (t : Option ℕ) (name : Text)
    (size : ℤ) (user now : ℕ) (d : Db)
    → AreAnnouncedBut id d
    → AreAnnounced
        (create_outbox_event kind aggregate topic
          (Payload.document_created org id project t name size user)
          now
          d).1
unfolding create_outbox_event
announced_now kind aggregate topic org id project t name size user now d h =
    All-map d.documents
      (λ x k. ground (
        arith,
        k,
        any-snoc (announces x.id) d.outbox (
            event_row now d.next_id kind aggregate topic
              (Payload.document_created org id project t name size user)),
      ))
      h

completed :
    (actor : Actor) (place : Place) (upload x : Document)
    → Triple AreAnnounced (complete_row actor place upload x) (λ _ d. AreAnnounced d)
unfolding complete_row emit complete_document_upload create_outbox_event
completed actor place upload x =
    bind
      (run_rule {Q = λ _ d. AreAnnouncedBut x.id d} (complete_document_upload x.id)
        (λ now d h. completed_but x.id now d h))
      (λ rows. bind (of_keeps (Keeps-raise_if (rows == 0) conflict)) (λ _.
        bind
          (run_rule {Q = λ _ d. AreAnnounced d} (create_outbox_event _ _ _ _)
            (λ now d h. announced_now _ _ _ _ _ _ _ _ _ _ now d h))
          (λ _. weaken (pure_rule x) (λ y d h. h.0))))

reserved :
    (r : Reservation) (now : ℕ) (d : Db)
    → AreAnnounced d
    → AreAnnounced (reserve_document_upload r now d).1
reserved r now d h =
    reserve-cases AreAnnounced r now d h (λ _. All-snoc d.documents (reserved_row now r) h refl)

announced-kept : DocumentsKept AreAnnounced
unfolding set_ocr_document_id soft_delete_document
announced-kept = record {
  id_taken = λ d h. h;
  reserved = reserved;
  job_saved = λ id job now d h.
      All-update (λ x. is_document id x && is_none x.ocr_document_id)
        (λ x. record x { ocr_document_id = some job }) d.documents (λ x e k. k) (λ x e k. k) h;
  deleted = λ id now d h.
      All-update (is_document id) (λ x. record x { deleted_at = some now }) d.documents (λ x e k. k)
        (λ x e k. k) h;
  emitted = emitted;
  completed = completed;
}

-- Every uploaded document has an event in the outbox that says so, in every database that requests
-- on documents reach from one where it is so, whatever fails in them.
pub reachable-AreAnnounced :
    {s : Services} {start d : Db}
    → DocumentsReachable s start d
    → AreAnnounced start
    → AreAnnounced d
reachable-AreAnnounced r h = reachable-Keeps announced-kept r h
