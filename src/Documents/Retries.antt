-- ===== src/Documents/Retries.antt =====
-- An upload that was completed, asked for again with its key.
use expense.Base.{
  ℕ, ◌==◌, ◌≡◌, ◌∙◌, refl, ap, true, false, not, ◌||◌, ◌&&◌, Bool, Option, none, some, List, inl,
  inr, Bool-cases, if◌then◌else◌, find, length, length-update, is_none, is_some, subst, sym,
}
use expense.Store.Rows.{OutboxEvent}
use expense.Store.DocumentRows.{Document}
use expense.Store.World.{
  Db, Env, World, ok, M, run, idempotency_key_required, idempotency_key_reused,
}
use expense.Store.Hoare.{Triple, Succeeds, bind, weaken, pure_rule, raise_rule}
use expense.Store.Keeps.{Keeps, Keeps-bind, Keeps-run, Keeps-raise_if, Keeps-ask, Keeps-pure}
use expense.Store.Frames.{of_keeps, successful}
use expense.Store.Documents.{
  is_of_key, is_document, get_document_upload_by_key, set_ocr_document_id,
}
use expense.Authz.{Actor}
use expense.Ocr.Sweep.{job_of}
use expense.Documents.{
  Services, DocumentView, to_doc, file_url, with_url, save_job, submit_ocr, document_from,
}
use expense.Documents.Uploads.{
  UploadInput, Place, same_upload_request, find_upload, after_lookup, upload,
}
use expense.Documents.Kept.{ignored-Keeps}
use expense.Documents.Changes.{read_content-Keeps}

-- The tables have these events, and so many documents.
abbrev pub Has : List OutboxEvent → ℕ → Db → Type 0
Has outbox n d = (d.outbox ≡ outbox) × (length d.documents ≡ n)

module _ (outbox : List OutboxEvent) (n : ℕ) where
  saved : (id : ℕ) (job : Option ℕ) → Keeps (Has outbox n) (save_job id job)
  unfolding set_ocr_document_id
  saved id none = record { holds = λ env w h. h }
  saved id (some job) = ignored-Keeps (
      Keeps-run (set_ocr_document_id id job) (λ now d h. (
        h.0,
        length-update (λ (y : Document). is_document id y && is_none y.ocr_document_id)
              (λ y. record y { ocr_document_id = some job }) d.documents
            ∙ h.1,
      )))

  submit-Has : (s : Services) (x : Document) → Keeps (Has outbox n) (submit_ocr s x)
  unfolding submit_ocr
  submit-Has s x = Keeps-bind (Keeps-ask _) (λ answer. saved x.id (job_of s.gateway answer))

  -- What the caller gets is the document.
  document_from-Has :
      (s : Services) (x : Document)
      → Triple (Has outbox n) (document_from s x) (λ v d. Has outbox n d × (v.id ≡ x.id))
  unfolding document_from with_url file_url
  document_from-Has s x = bind (of_keeps (submit-Has s x)) (λ _.
      bind (of_keeps (Keeps-bind (Keeps-ask _) (λ url. Keeps-pure _))) (λ url.
        weaken (pure_rule (to_doc url x)) (λ v d h. (h.0, ap (λ (y : DocumentView). y.id) h.1))))

  module _ (s : Services) (actor : Actor) (place : Place) (input : UploadInput) (x : Document) where
    -- The key was used for `x`.
    abbrev Used : Db → Type 0
    Used d =
        (find (is_of_key place.project_id actor.user_id input.idempotency_key) d.documents ≡ some x)
        × Has outbox n d

    find_upload-Used :
        Triple Used
          (find_upload actor place.project_id input.idempotency_key)
          (λ o d. Has outbox n d × (o ≡ some x))
    unfolding find_upload get_document_upload_by_key run
    find_upload-Used = record {
      holds = λ env w h. elim (Bool-cases (env.fails w.tick)) [
        | inl e ↦ rw e tt
        | inr e ↦ rw (e, h.0) (h.1, refl)
      ];
    }

    lookup-Used :
        (bytes : List ℕ)
        → x.upload_complete ≡ true
        → Triple
            (Has outbox n)
            (after_lookup s actor place input bytes (some x))
            (λ v d. Has outbox n d × (v.id ≡ x.id))
    lookup-Used bytes c =
        choice
          (not (same_upload_request x place.transaction_id input (s.hash bytes))
            || is_some x.deleted_at)
          (raise_rule idempotency_key_reused) (chosen x.upload_complete _ c (document_from-Has s x))
      where
        choice :
            {Q : DocumentView → Db → Type 0} {m k : M DocumentView} (c : Bool)
            → Triple (Has outbox n) m Q
            → Triple (Has outbox n) k Q
            → Triple (Has outbox n) (if c then m else k) Q
        choice true h k = h
        choice false h k = k

        chosen :
            {Q : DocumentView → Db → Type 0} {m : M DocumentView} (c : Bool) (k : M DocumentView)
            → c ≡ true
            → Triple (Has outbox n) m Q
            → Triple (Has outbox n) (if c then m else k) Q
        chosen true k e h = h
        chosen false k e h = absurd cc

    upload-Used :
        x.upload_complete ≡ true
        → Triple Used (upload s actor place input) (λ v d. Has outbox n d × (v.id ≡ x.id))
    unfolding upload
    upload-Used c =
        bind (of_keeps (Keeps-raise_if (input.idempotency_key == 0) idempotency_key_required)) (λ _.
          bind (of_keeps (read_content-Keeps input input.content)) (λ bytes.
            bind find_upload-Used (λ o. record {
              holds = λ env w h.
                  subst
                    (λ q.
                      Succeeds (λ v d. Has outbox n d × (v.id ≡ x.id))
                        (after_lookup s actor place input bytes q env w))
                    (sym h.1) ((lookup-Used bytes c).holds env w h.0);
            })))

-- An upload asked for again, where the key's document is complete, gives that document if it
-- succeeds, and makes no other document and no event.
pub upload_again :
    (s : Services) (actor : Actor) (place : Place) (input : UploadInput) (x : Document) (env : Env)
    (w : World) (v : DocumentView)
    → find (is_of_key place.project_id actor.user_id input.idempotency_key) w.db.documents ≡ some x
    → x.upload_complete ≡ true
    → (upload s actor place input env w).0 ≡ ok v
    → let after = (upload s actor place input env w).1.db in
      (v.id ≡ x.id)
      × (after.outbox ≡ w.db.outbox)
      × (length after.documents ≡ length w.db.documents)
upload_again s actor place input x env w v used c e =
    let known =
      successful env w v (upload-Used w.db.outbox (length w.db.documents) s actor place input x c)
        (used, (refl, refl)) e in
    (known.1, known.0.0, known.0.1)
