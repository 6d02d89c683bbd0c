-- ===== src/Ocr/Taken.antt =====
-- What the consumer keeps of the tables once a document is taken.
use expense.Base.{
  ℕ, zero, suc, ◌+◌, ◌≡◌, ◌∙◌, ◌||◌, refl, inl, inr, arith, true, false, not, ◌==◌, Option, none,
  some, List, [], ◌∷◌, ◌++◌, Text, All, All-update, count, length, length-update, Bool-cases,
  is_some,
}
use expense.Store.Rows.{Transaction, Status, status_eq, Topic, Payload}
use expense.Store.DocumentRows.{Document, DocumentResult, OcrStatus}
use expense.Store.World.{Db, World, Result, ok, err, not_found, run}
use expense.Store.Keeps.{Keeps, Keeps-bind, Keeps-run, Keeps-raise_if, Keeps-pure, Keeps-exec_tx}
use expense.Store.Frames.{of_keeps}
use expense.Store.Transactions.{has_id, get_transaction, lock_transaction}
use expense.Store.Items.{
  ItemRow, insert_transaction_items, sync_total, with_total, sum_amounts, items_of, new_items,
}
use expense.Store.Documents.{
  ProcessedDocument, is_in, attached, processed, attach_document_to_transaction,
  complete_document_ocr, fail_document_ocr, get_document_for_processing,
}
use expense.Store.Outbox.{emit, create_outbox_event}
use expense.Ocr.{
  OcrItem, or_absent, find_document, item_row, park, append_item, is_bound_to, is_overflow,
  attach_item, attach_to, attach_body, attach, fill_draft, after_create,
}

-- No delivery can claim the document any more.
abbrev pub IsTaken : (id : ℕ) → Db → Type 0
IsTaken id d = All (λ (x : Document). is_in id OcrStatus.pending x ≡ false) d.documents

sync_total-aside :
    (k id now : ℕ) (d : Db)
    → ((sync_total k id now d).documents ≡ d.documents)
      × (length (sync_total k id now d).transactions ≡ length d.transactions)
unfolding sync_total
sync_total-aside zero id now d = (refl, refl)
sync_total-aside (suc k) id now d =
    let rest = sync_total-aside k id now _ in
    (
      rest.0,
      rest.1
          ∙ length-update (has_id id) (with_total now (sum_amounts (items_of id d))) d.transactions,
    )

pub find_document-Keeps : {P : Db → Type 0} (id : ℕ) → Keeps P (find_document id)
unfolding find_document get_document_for_processing
find_document-Keeps {P} id = record {
  holds = λ env w h.
      same P (run (get_document_for_processing id) env w)
        ((Keeps-run {P = P} (get_document_for_processing id) (λ now d p. p)).holds env w h);
}
  where
    same :
        (P : Db → Type 0) (r : Result ProcessedDocument × World) → P r.1.db → P (or_absent r).1.db
    same P (ok x, w) h = h
    same P (err e, w) h = h

-- What the statements on a document and its draft keep, where the document is taken and `P` holds
-- of the number of transactions.
module _ (id : ℕ) (P : ℕ → Type 0) where
  abbrev pub Taken : Db → Type 0
  Taken d = IsTaken id d × P (length d.transactions)

  insert-Taken : (t : ℕ) (rows : List ItemRow) → Keeps Taken (run (insert_transaction_items t rows))
  unfolding insert_transaction_items
  insert-Taken t rows = Keeps-run (insert_transaction_items t rows) (λ now d h.
      let aside = sync_total-aside (count (λ _. true) rows) t now (record d {
        items = d.items ++ new_items t now d.next_id rows;
        next_id = d.next_id + count (λ _. true) rows;
      }) in
      (rw aside.0 h.0, rw aside.1 h.1))

  attach-Taken :
      (x t : ℕ) (result : Option DocumentResult)
      → Keeps Taken (run (attach_document_to_transaction x t OcrStatus.completed result))
  unfolding attach_document_to_transaction
  attach-Taken x t result =
      Keeps-run (attach_document_to_transaction x t OcrStatus.completed result) (λ now d h. (
        All-update _ (attached now t OcrStatus.completed result) d.documents (λ y u k. ground arith)
            (λ y u k. k) h.0,
        h.1,
      ))

  pub park-Taken : (x : ℕ) (result : Option DocumentResult) → Keeps Taken (park x result)
  unfolding complete_document_ocr
  park-Taken x result =
      Keeps-bind
        (Keeps-run (complete_document_ocr x OcrStatus.needs_review result) (λ now d h. (
          All-update _ (processed now OcrStatus.needs_review result) d.documents
              (λ y u k. ground arith) (λ y u k. k) h.0,
          h.1,
        )))
        (λ _. Keeps-pure tt)

  pub fail-Taken : (x : ℕ) → Keeps Taken (run (fail_document_ocr x))
  unfolding fail_document_ocr
  fail-Taken x = Keeps-run (fail_document_ocr x) (λ now d h. (
    All-update (is_in x OcrStatus.processing)
        (λ (y : Document). record y { ocr_status = OcrStatus.failed; ocr_processed_at = some now })
        d.documents (λ y u k. ground arith) (λ y u k. k) h.0,
    h.1,
  ))

  get-Taken : (t org : ℕ) → Keeps Taken (run (get_transaction t org))
  unfolding get_transaction
  get-Taken t org = Keeps-run (get_transaction t org) (λ now d h. h)

  emit-Taken :
      (kind : Text) (aggregate : ℕ) (topic : Topic) (payload : Payload)
      → Keeps Taken (emit kind aggregate topic payload)
  unfolding emit create_outbox_event
  emit-Taken kind aggregate topic payload =
      Keeps-run (create_outbox_event kind aggregate topic payload) (λ now d h. h)

  attach_item-Taken :
      (t : ℕ) (x : ProcessedDocument) (locked : Transaction) (item : Option OcrItem)
      (result : Option DocumentResult)
      → Keeps Taken (attach_item t x locked item result)
  unfolding append_item
  attach_item-Taken t x locked none result = park-Taken x.document.id result
  attach_item-Taken t x locked (some item) result =
      elim (Bool-cases (not (status_eq locked.status Status.draft) || is_overflow locked item)) [
        | inl e ↦ rw e (park-Taken x.document.id result)
        | inr e ↦ rw e (
            Keeps-bind (insert-Taken t (item_row item ∷ [])) (λ _.
              Keeps-bind (attach-Taken x.document.id t result) (λ _.
                Keeps-bind (get-Taken t locked.organization_id) (λ refreshed. emit-Taken _ _ _ _))))
      ]

  attach_to-Taken :
      (t : ℕ) (locked : Transaction) (item : Option OcrItem) (result : Option DocumentResult)
      (current : Option ProcessedDocument)
      → Keeps Taken (attach_to t locked item result current)
  attach_to-Taken t locked item result none = Keeps-pure tt
  attach_to-Taken t locked item result (some x) = elim (Bool-cases (is_bound_to t x.document)) [
    | inl e ↦ rw e (
        Keeps-bind (Keeps-raise_if (not (x.organization_id == locked.organization_id)) not_found)
          (λ _. attach_item-Taken t x locked item result))
    | inr e ↦ rw e (Keeps-pure tt)
  ]

  pub attach_all-Taken :
      (x t : ℕ) (item : Option OcrItem) (result : Option DocumentResult)
      → Keeps Taken (attach x t item result)
  unfolding attach attach_body lock_transaction
  attach_all-Taken x t item result = Keeps-exec_tx (
      of_keeps (
        Keeps-bind (Keeps-run (lock_transaction t) (λ now d h. h)) (λ locked.
          Keeps-bind (Keeps-raise_if (is_some locked.deleted_at) not_found) (λ _.
            Keeps-bind (find_document-Keeps x)
              (λ current. attach_to-Taken t locked item result current)))))

  fill_draft-Taken :
      (x : ProcessedDocument) (t : ℕ) (item : OcrItem) (result : Option DocumentResult)
      → Keeps Taken (fill_draft x t item result)
  unfolding fill_draft
  fill_draft-Taken x t item result = Keeps-bind (insert-Taken t (item_row item ∷ [])) (λ _.
      Keeps-bind (attach-Taken x.document.id t result)
        (λ _. Keeps-bind (get-Taken t x.organization_id) (λ created. emit-Taken _ _ _ _)))

  pub after_create-Taken :
      (x : ProcessedDocument) (item : OcrItem) (result : Option DocumentResult)
      (row : Option Transaction)
      → Keeps Taken (after_create x item result row)
  after_create-Taken x item result none = park-Taken x.document.id result
  after_create-Taken x item result (some row) = fill_draft-Taken x row.id item result
