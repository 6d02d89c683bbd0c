-- ===== src/Documents/Examples.antt =====
-- A receipt that is uploaded, the same upload again, and another one under its key.
use expense.Base.{
  ℕ, ◌≡◌, refl, true, false, none, some, [], ◌∷◌, ◌++◌, find, codes, pos, length, All, Pairwise,
}
use expense.Store.DocumentRows.{Document, OcrStatus}
use expense.Store.World.{Db, World, err, ok, idempotency_key_reused, run, ask, exec_tx, finish_tx}
use expense.Store.Access.{get_user_project_actions}
use expense.Store.Projects.{get_project, lock_project_for_document_upload}
use expense.Store.Documents.{
  complete_document_upload, get_document_upload_by_key, is_of_key, lock_document_upload,
  set_ocr_document_id,
}
use expense.Store.Reservations.{reserve_document_upload}
use expense.Store.Outbox.{emit, create_outbox_event}
use expense.Authz.{can, check_org_write}
use expense.Approval.Scenarios.{creator, start, quiet, world}
use expense.Documents.{Services, to_doc, document_from, submit_ocr, with_url, file_url}
use expense.Documents.Uploads.{
  UploadInput, Place, document_upload, upload, upload_to_project, load_project, find_upload,
  reserve_and_store, check_open, uploader_snapshot, new_id, reserve_body, try_reserve,
  same_upload_request, store_and_complete, complete_body, complete_row,
}
use expense.Documents.Changes.{DocumentRequest, DocumentsReachable, after_request}
use expense.Documents.Announced.{AreAnnounced, reachable-AreAnnounced}
use expense.Documents.Retries.{upload_again}
use expense.Documents.Keyed.{IsKeyedOnce, reachable-IsKeyedOnce}

abbrev services : Services
services = record {
  storage = record { put = λ _ _ _ _ _. true; presign_get = λ _ path _ _. some path };
  bucket = codes "receipts";
  gateway = record {
    get_document_status = λ _ _. none;
    submit_document = λ _ _. some (codes "7");
    parse_id = λ _. some 7;
    is_cancelled = λ _. false;
  };
  hash = λ bytes. bytes;
  id_text = λ id. id ∷ [];
}

abbrev house : Db
house = record start {
  transactions = [];
  documents = [];
  projects =
      record {
        id = 5;
        organization_id = 3;
        name = codes "house";
        created_by = 7;
        created_at = 1;
        updated_at = 1;
        deleted_at = none;
        archived_at = none;
      }
      ∷ [];
  permissions = record { role_id = 6; action = document_upload } ∷ [];
}

abbrev photo : UploadInput
photo = record {
  idempotency_key = 1;
  file_name = codes "a.jpg";
  mime_type = codes "image/jpeg";
  size = pos 2;
  content = some (8 ∷ 9 ∷ []);
  is_rewindable = true;
}

abbrev other_photo : UploadInput
other_photo = record photo { content = some (8 ∷ 10 ∷ []) }

abbrev once : World
once = (upload_to_project services creator 5 photo quiet (world house)).1

abbrev twice : World
twice = (upload_to_project services creator 5 photo quiet (world once.db)).1

-- One document and one event come of the two uploads; other content under the key is refused.
uploads :
    (◌≡◌ {A = ℕ} (length once.db.documents) 1)
    × (◌≡◌ {A = ℕ} (length once.db.outbox) 1)
    × (◌≡◌ {A = ℕ} (length twice.db.documents) 1)
    × (◌≡◌ {A = ℕ} (length twice.db.outbox) 1)
    × ((upload_to_project services creator 5 other_photo quiet (world once.db)).0
        ≡ err idempotency_key_reused)
unfolding upload_to_project load_project get_project check_org_write can get_user_project_actions
    upload find_upload get_document_upload_by_key reserve_and_store check_open uploader_snapshot
    new_id reserve_body try_reserve lock_project_for_document_upload reserve_document_upload
    same_upload_request store_and_complete complete_body lock_document_upload complete_row
    complete_document_upload emit create_outbox_event document_from submit_ocr set_ocr_document_id
    with_url file_url exec_tx finish_tx run ask
uploads = (refl, refl, refl, refl, refl)

abbrev place : Place
place = record { project_id = 5; transaction_id = none }

-- The row of the first upload.
abbrev row : Document
row = record {
  id = 100;
  transaction_id = none;
  storage_path = 3 ∷ codes "/" ++ 5 ∷ codes "/" ++ 100 ∷ codes ".jpg";
  file_name = codes "a.jpg";
  file_size = pos 2;
  mime_type = codes "image/jpeg";
  file_hash = some (8 ∷ 9 ∷ []);
  ocr_status = OcrStatus.pending;
  ocr_data = none;
  ocr_processed_at = none;
  uploaded_by = 7;
  created_at = 6;
  deleted_at = none;
  project_id = 5;
  uploaded_by_name = codes "unknown";
  uploaded_by_email = codes "unknown";
  uploaded_by_role = creator.role;
  ocr_document_id = some 7;
  idempotency_key = some 1;
  upload_complete = true;
  ocr_submit_attempted_at = none;
}

again :
    (find (is_of_key 5 creator.user_id 1) once.db.documents ≡ some row)
    × ((upload services creator place photo quiet (world once.db)).0
        ≡ ok (to_doc row.storage_path row))
unfolding upload_to_project load_project get_project check_org_write can get_user_project_actions
    upload find_upload get_document_upload_by_key reserve_and_store check_open uploader_snapshot
    new_id reserve_body try_reserve lock_project_for_document_upload reserve_document_upload
    same_upload_request store_and_complete complete_body lock_document_upload complete_row
    complete_document_upload emit create_outbox_event document_from submit_ocr set_ocr_document_id
    with_url file_url exec_tx finish_tx run ask
again = (refl, refl)

upload_again_example :
    let after = (upload services creator place photo quiet (world once.db)).1.db in
    ((to_doc row.storage_path row).id ≡ row.id)
    × (after.outbox ≡ once.db.outbox)
    × (length after.documents ≡ length once.db.documents)
upload_again_example =
    upload_again services creator place photo row quiet (world once.db)
      (to_doc row.storage_path row) again.0 refl again.1

abbrev uploaded : Db
uploaded = after_request services creator (DocumentRequest.into_project 5 photo) quiet (world house)

reachable-AreAnnounced_example : AreAnnounced uploaded
reachable-AreAnnounced_example =
    reachable-AreAnnounced
      (DocumentsReachable.after (world house) DocumentsReachable.here creator
        (DocumentRequest.into_project 5 photo) quiet)
      All.none

reachable-IsKeyedOnce_example : IsKeyedOnce uploaded
reachable-IsKeyedOnce_example =
    reachable-IsKeyedOnce
      (DocumentsReachable.after (world house) DocumentsReachable.here creator
        (DocumentRequest.into_project 5 photo) quiet)
      Pairwise.none
