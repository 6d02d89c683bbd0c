-- ===== src/Store/DocumentRows.antt =====
-- The row of `documents` in internal/repository/models.go, and the parts of the OCR result that it
-- keeps (internal/service/ocrconsumer/model.go).
use expense.Base.{ℕ, Bool, true, false, Option, List, Text, ℤ}

-- constant/document.go: `documents.ocr_status`, held to these words by `ck_documents_ocr_status`.
pub data OcrStatus : Type 0 where
  pending processing completed needs_review failed : OcrStatus

abbrev pub ocr_status_eq : OcrStatus → OcrStatus → Bool
ocr_status_eq OcrStatus.pending OcrStatus.pending = true
ocr_status_eq OcrStatus.processing OcrStatus.processing = true
ocr_status_eq OcrStatus.completed OcrStatus.completed = true
ocr_status_eq OcrStatus.needs_review OcrStatus.needs_review = true
ocr_status_eq OcrStatus.failed OcrStatus.failed = true
ocr_status_eq _ _ = false

-- A field's confidence and page are read nowhere.
pub record ExtractField : Type 0 where
  pub name : Text
  pub value : Text
  pub amount : ℤ
  pub currency : Text
  pub status : Text

-- `is_confident` is `AvgConfidence >= 0.7`, the one question that the code asks of the float.
pub record DocumentResult : Type 0 where
  pub is_confident : Bool
  pub fields : List ExtractField

-- `ocr_data` is the JSON of a DocumentResult there, and the result itself here.
pub record Document : Type 0 where
  pub id : ℕ
  pub transaction_id : Option ℕ
  pub storage_path : Text
  pub file_name : Text
  pub file_size : ℤ
  pub mime_type : Text
  pub file_hash : Option Text
  pub ocr_status : OcrStatus
  pub ocr_data : Option DocumentResult
  pub ocr_processed_at : Option ℕ
  pub uploaded_by : ℕ
  pub created_at : ℕ
  pub deleted_at : Option ℕ
  pub project_id : ℕ
  pub uploaded_by_name : Text
  pub uploaded_by_email : Text
  pub uploaded_by_role : Text
  pub ocr_document_id : Option ℕ
  pub idempotency_key : Option ℕ
  pub upload_complete : Bool
  pub ocr_submit_attempted_at : Option ℕ
