-- ===== src/Ocr/Sweep.antt =====
-- internal/service/ocrconsumer/sweep.go: documents whose event never came.
use expense.Base.{
  ℕ, ◌+◌, ◌-◌, Bool, Option, none, some, List, [], ◌∷◌, Text, text_eq, ℤ, if◌then◌else◌, ◌==◌,
}
use expense.Store.DocumentRows.{Document, ExtractField}
use expense.Store.World.{
  World, Result, ok, err, failure, M, pure, raise, raise_if, ◌>>=◌, ◌>>◌, run, ask,
}
use expense.Store.Documents.{
  ProcessedDocument, claim_stale_ocr_submissions, list_stale_ocr_documents, set_ocr_document_id,
}
use expense.Ocr.{ResultStatus, ProcessedMessage, hold_access, handle}

-- What the gateway says of a job: `none` for a state that is not an end.
pub record Snapshot : Type 0 where
  pub status : Option ResultStatus
  pub is_confident : Bool
  pub fields : List ExtractField

-- SubmitInput; the idempotency key and the reference are the document's id.
pub record SubmitInput : Type 0 where
  pub document_id : ℕ
  pub bucket : Text
  pub storage_path : Text
  pub size_bytes : ℤ
  pub declared_mime : Text

-- The OCR gateway, another service: `none` is an error. `parse_id` is uuid.Parse, and
-- `is_cancelled` what the context says.
pub record Gateway : Type 0 where
  pub get_document_status : ℕ → (job : Option ℕ) → Option Snapshot
  pub submit_document : ℕ → SubmitInput → Option Text
  pub parse_id : Text → Option ℕ
  pub is_cancelled : ℕ → Bool

abbrev pub message_from_snapshot : (document_id : ℕ) → ResultStatus → Snapshot → ProcessedMessage
message_from_snapshot id ResultStatus.failed snap = record {
  external_ref = id;
  status = ResultStatus.failed;
  result = none;
}
message_from_snapshot id status snap = record {
  external_ref = id;
  status = status;
  result = some (record { is_confident = snap.is_confident; fields = snap.fields });
}

-- An error is logged or ignored, and the sweep goes on.
abbrev pub counted : Result (Unit {0}) × World → Result ℕ × World
counted (ok _, w) = (ok 1, w)
counted (err e, w) = (ok 0, w)

abbrev pub sweep_snapshot : (document_id : ℕ) → Snapshot → Option ResultStatus → M ℕ
sweep_snapshot id snap none env w = (ok 0, w)
sweep_snapshot id snap (some status) env w =
    counted (handle (message_from_snapshot id status snap) env w)

abbrev pub sweep_answer : (document_id : ℕ) → Option Snapshot → M ℕ
sweep_answer id none = pure 0
sweep_answer id (some snap) = sweep_snapshot id snap snap.status

unfoldable pub sweep_one : Gateway → Document → M ℕ
sweep_one gateway x = do
  answer ← ask (λ env t. gateway.get_document_status t x.ocr_document_id)
  sweep_answer x.id answer

unfoldable pub sweep_all : Gateway → List Document → M ℕ
unfolding sweep_one
sweep_all gateway [] = pure 0
sweep_all gateway (x ∷ xs) = do
  here ← sweep_one gateway x
  rest ← sweep_all gateway xs
  pure (here + rest)

unfoldable pub sweep_stale : Gateway → (older_than limit : ℕ) → M ℕ
unfolding sweep_all
sweep_stale gateway older_than limit = do
  now ← ask (λ env t. env.now t)
  docs ← run (list_stale_ocr_documents (now - older_than) limit)
  sweep_all gateway docs

abbrev pub submit_input : (bucket : Text) → Document → SubmitInput
submit_input bucket x = record {
  document_id = x.id;
  bucket = bucket;
  storage_path = x.storage_path;
  size_bytes = x.file_size;
  declared_mime = x.mime_type;
}

-- The job's id, if the answer is one.
abbrev pub job_of : Gateway → Option Text → Option ℕ
job_of gateway none = none
job_of gateway (some answer) = if text_eq answer [] then none else gateway.parse_id answer

abbrev pub keep_job : (document_id : ℕ) → Option ℕ → M (Unit {0})
keep_job id none = raise failure
keep_job id (some job) = do rows ← run (set_ocr_document_id id job); raise_if (rows == 0) failure

unfoldable pub submit_again : Gateway → (bucket : Text) → ProcessedDocument → M (Unit {0})
submit_again gateway bucket x = do
  hold_access x
  answer ← ask (λ env t. gateway.submit_document t (submit_input bucket x.document))
  keep_job x.document.id (job_of gateway answer)

-- What fails for one document is logged or ignored.
abbrev pub retry_one : Gateway → (bucket : Text) → ProcessedDocument → M ℕ
retry_one gateway bucket x env w = counted (submit_again gateway bucket x env w)

unfoldable pub retry_all : Gateway → (bucket : Text) → List ProcessedDocument → M ℕ
unfolding submit_again
retry_all gateway bucket [] = pure 0
retry_all gateway bucket (x ∷ xs) = do
  cancelled ← ask (λ env t. gateway.is_cancelled t)
  raise_if cancelled failure
  here ← retry_one gateway bucket x
  rest ← retry_all gateway bucket xs
  pure (here + rest)

-- The count that a cancelled retry returns beside its error is dropped.
unfoldable pub retry_unsubmitted :
    Gateway → (bucket : Text) → (older_than retry_after limit : ℕ) → M ℕ
unfolding retry_all
retry_unsubmitted gateway bucket older_than retry_after limit = do
  now ← ask (λ env t. env.now t)
  docs ← run (claim_stale_ocr_submissions (now - older_than) (now - retry_after) limit)
  retry_all gateway bucket docs
