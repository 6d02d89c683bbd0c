-- ===== src/Ocr/Drafts.antt =====
-- A document makes one draft at most, however often its result is delivered.
use expense.Base.{
  ℕ, suc, ◌≤◌, ◌≡◌, refl, inl, inr, ◌⊎◌, arith, false, not, ◌==◌, Option, none, some, List, [], ◌∷◌,
  All, All-every, All-update, any, update, length, length-append, Bool-cases, Option-cases,
  count-zero, any-false, subst, ◌≢◌,
}
use expense.Store.Rows.{Transaction}
use expense.Store.DocumentRows.{Document, DocumentResult, OcrStatus, ocr_status_eq}
use expense.Store.World.{
  Db, Env, World, Result, ok, err, WriteAccessLease, identity_unavailable, write_access_denied, run,
}
use expense.Store.Hoare.{Yields, Triple, bind, weaken, run_rule, pure_rule}
use expense.Store.Keeps.{
  Keeps, Keeps-bind, Keeps-run, Keeps-raise_if, Keeps-pure, Keeps-ask, Keeps-raise,
}
use expense.Store.Frames.{of_keeps}
use expense.Store.Leads.{
  Leads, Leads-Keeps, Leads-weaken, Leads-run, Leads-then, of_leads, Leads-exec_tx, Keeps-then,
}
use expense.Store.Transactions.{NewTransaction, takes_drafts, transaction_row, create_transaction}
use expense.Store.Documents.{ProcessedDocument, is_in, claim_document_for_ocr}
use expense.Ocr.{
  ResultStatus, ProcessedMessage, OcrItem, or_absent, check_access, hold_access, is_denied,
  draft_of, try_create, draft_from, is_unbound, draft_for, create_draft_body, create_draft, settle,
  apply_result, apply_found, apply_claimed, if_claimed, claim_and_apply, handle_found, handle,
}
use expense.Ocr.Taken.{
  IsTaken, Taken, find_document-Keeps, park-Taken, fail-Taken, attach_all-Taken, after_create-Taken,
}

-- Nothing has come of the document's result yet, or the document is taken.
abbrev pub HasOneDraft : (id before : ℕ) → Db → Type 0
HasOneDraft id n d = (length d.transactions ≡ n) ⊎ (IsTaken id d × (length d.transactions ≤ suc n))

-- The document is taken, and no transaction is new; or one is.
abbrev Before : (id before : ℕ) → Db → Type 0
Before id n = Taken id (λ m. m ≡ n)

abbrev After : (id before : ℕ) → Db → Type 0
After id n = Taken id (λ m. m ≤ suc n)

module _ (id n : ℕ) where
  weaker : (d : Db) → Before id n d → After id n d
  weaker d h = (h.0, omega (arith, h.1))

  created :
      (p : NewTransaction) (now : ℕ) (d : Db)
      → Before id n d
      → After id n (create_transaction p now d).1
  unfolding create_transaction
  created p now d h =
      elim (Bool-cases (any (takes_drafts p.project_id p.organization_id) d.projects)) [
        | inl e ↦ rw e (
          h.0,
          omega
              (arith, h.1, length-append {0} d.transactions (transaction_row now d.next_id p ∷ [])),
        )
        | inr e ↦ rw e (weaker d h)
      ]

  try_create-Leads : (p : NewTransaction) → Leads (Before id n) (After id n) (try_create p)
  unfolding try_create
  try_create-Leads p = record {
    holds = λ env w h. same (After id n) (run (create_transaction p) env w) (
        (Leads-run {P = Before id n} {R = After id n} (create_transaction p) weaker
            (created p)).holds
          env w h);
  }
    where
      same : (P : Db → Type 0) (r : Result Transaction × World) → P r.1.db → P (or_absent r).1.db
      same P (ok x, w) h = h
      same P (err e, w) h = h

  draft_from-Leads :
      (x : ProcessedDocument) (item : OcrItem) (result : Option DocumentResult)
      → Triple (Before id n) (draft_from x item result) (λ _ d. After id n d)
  unfolding draft_from
  draft_from-Leads x item result =
      bind (of_leads (try_create-Leads (draft_of x)))
        (λ row. of_keeps (after_create-Taken id (λ m. m ≤ suc n) x item result row))

  draft_for-rule :
      (item : OcrItem) (result : Option DocumentResult) (current : Option ProcessedDocument)
      → Triple (Before id n) (draft_for item result current) (λ _ d. After id n d)
  draft_for-rule item result none = weaken (pure_rule tt) (λ _ d h. weaker d h.0)
  draft_for-rule item result (some x) = elim (Bool-cases (is_unbound x.document)) [
    | inl e ↦ rw e (draft_from-Leads x item result)
    | inr e ↦ rw e (weaken (pure_rule tt) (λ _ d h. weaker d h.0))
  ]

  create_draft-Leads :
      (x : ℕ) (item : Option OcrItem) (result : Option DocumentResult)
      → Leads (Before id n) (After id n) (create_draft x item result)
  unfolding create_draft create_draft_body
  create_draft-Leads x none result = Leads-Keeps weaker (park-Taken id (λ m. m ≤ suc n) x result)
  create_draft-Leads x (some item) result =
      Leads-exec_tx weaker
        (bind (of_keeps (find_document-Keeps x)) (λ current. draft_for-rule item result current))

  settle-Leads :
      (x : ProcessedDocument) (item : Option OcrItem) (result : Option DocumentResult)
      → Leads (Before id n) (After id n) (settle x item result)
  settle-Leads x item result = elim (Option-cases x.document.transaction_id) [
    | inl e ↦ rw e (create_draft-Leads x.document.id item result)
    | inr (t, e) ↦
        rw e (Leads-Keeps weaker (attach_all-Taken id (λ m. m ≤ suc n) x.document.id t item result))
  ]

  apply_result-Leads :
      (x : ProcessedDocument) (status : ResultStatus) (result : Option DocumentResult)
      → Leads (Before id n) (After id n) (apply_result x status result)
  apply_result-Leads x ResultStatus.failed result =
      Leads-Keeps weaker
        (Keeps-bind (fail-Taken id (λ m. m ≤ suc n) x.document.id) (λ _. Keeps-pure tt))
  apply_result-Leads x ResultStatus.completed result = settle-Leads x _ result
  apply_result-Leads x ResultStatus.needs_review result = settle-Leads x _ result

  apply_found-Leads :
      (msg : ProcessedMessage) (found : Option ProcessedDocument)
      → Leads (Before id n) (After id n) (apply_found msg found)
  apply_found-Leads msg none = Leads-Keeps weaker (Keeps-pure tt)
  apply_found-Leads msg (some x) = apply_result-Leads x msg.status msg.result

  apply_claimed-Leads :
      (msg : ProcessedMessage) → Leads (Before id n) (After id n) (apply_claimed msg)
  unfolding apply_claimed
  apply_claimed-Leads msg =
      Leads-then (of_keeps (find_document-Keeps msg.external_ref))
        (find_document-Keeps msg.external_ref) weaker (λ found. apply_found-Leads msg found)

  taken_by_claim :
      (xs : List Document)
      → All
          (λ x. is_in id OcrStatus.pending x ≡ false)
          (update
            (is_in id OcrStatus.pending)
            (λ x. record x { ocr_status = OcrStatus.processing })
            xs)
  taken_by_claim xs =
      All-update {P = λ _. Unit {0}} (is_in id OcrStatus.pending)
        (λ (x : Document). record x { ocr_status = OcrStatus.processing }) xs
        (λ x u _. ground arith) (λ x u _. u) (All-every xs (λ _. tt))

  -- The claim takes no row, or it takes the document before there is a draft.
  abbrev Claimed : (rows : ℕ) → Db → Type 0
  Claimed rows d = ((rows ≡ 0) × HasOneDraft id n d) ⊎ Before id n d

  claim-Claimed :
      (now : ℕ) (d : Db) → HasOneDraft id n d → Yields Claimed (claim_document_for_ocr id now d)
  unfolding claim_document_for_ocr
  claim-Claimed now d (inl same) = inr (taken_by_claim d.documents, same)
  claim-Claimed now d (inr (taken, small)) = inl (
    count-zero (is_in id OcrStatus.pending) d.documents
        (any-false (is_in id OcrStatus.pending) d.documents taken),
    inr (taken_by_claim d.documents, small),
  )

  after_claim :
      (now : ℕ) (d : Db) → HasOneDraft id n d → HasOneDraft id n (claim_document_for_ocr id now d).1
  unfolding claim_document_for_ocr
  after_claim now d (inl same) = inl same
  after_claim now d (inr (taken, small)) = inr (taken_by_claim d.documents, small)

  if_claimed-Leads :
      (msg : ProcessedMessage) (rows : ℕ)
      → Leads (Claimed rows) (HasOneDraft id n) (if_claimed msg rows)
  if_claimed-Leads msg rows = elim (Bool-cases (rows == 0)) [
    | inl e ↦ rw e (Leads-Keeps (λ d h. settled_claim rows d h) (Keeps-pure tt))
    | inr e ↦ rw e (
        Leads-weaken {P' = Claimed rows} {R' = HasOneDraft id n} (λ d h. mine rows d e h)
          (λ d h. inr (h.0, h.1)) (apply_claimed-Leads msg))
  ]
    where
      settled_claim : (rows : ℕ) (d : Db) → Claimed rows d → HasOneDraft id n d
      settled_claim rows d (inl (z, h)) = h
      settled_claim rows d (inr h) = inl h.1

      mine : (rows : ℕ) (d : Db) → (rows == 0) ≡ false → Claimed rows d → Before id n d
      mine rows d e (inl (z, h)) = absurd (ground (arith, z, e))
      mine rows d e (inr h) = h

check_access-Keeps :
    {P : Db → Type 0} (answer : Option WriteAccessLease) → Keeps P (check_access answer)
check_access-Keeps none = Keeps-raise identity_unavailable
check_access-Keeps (some l) =
    Keeps-bind (Keeps-raise_if (not l.is_held) identity_unavailable)
      (λ _. Keeps-raise_if (is_denied l) write_access_denied)

hold_access-Keeps : {P : Db → Type 0} (x : ProcessedDocument) → Keeps P (hold_access x)
unfolding hold_access
hold_access-Keeps x = Keeps-bind (Keeps-ask _) (λ answer. check_access-Keeps answer)

handle_found-Keeps :
    (n : ℕ) (msg : ProcessedMessage) (found : Option ProcessedDocument)
    → Keeps (HasOneDraft msg.external_ref n) (handle_found msg found)
unfolding claim_and_apply
handle_found-Keeps n msg none = Keeps-pure tt
handle_found-Keeps n msg (some x) =
    elim (Bool-cases (ocr_status_eq x.document.ocr_status OcrStatus.pending)) [
      | inl e ↦ rw e (
          Keeps-bind (hold_access-Keeps x) (λ _.
            Keeps-then
              (run_rule (claim_document_for_ocr msg.external_ref)
                (claim-Claimed msg.external_ref n))
              (Keeps-run (claim_document_for_ocr msg.external_ref) (after_claim msg.external_ref n))
              (λ rows. if_claimed-Leads msg.external_ref n msg rows)))
      | inr e ↦ rw e (Keeps-pure tt)
    ]

handle-Keeps :
    (n : ℕ) (msg : ProcessedMessage) → Keeps (HasOneDraft msg.external_ref n) (handle msg)
unfolding handle
handle-Keeps n msg =
    Keeps-bind (find_document-Keeps msg.external_ref) (λ found. handle_found-Keeps n msg found)

-- Deliveries of results of the document, one after the other, each with what fails in it.
pub data Delivered (id : ℕ) (start : Db) : Db → Type 0 where
  nothing : Delivered id start start
  next :
      (w : World)
      → Delivered id start w.db
      → (msg : ProcessedMessage) → msg.external_ref ≡ id
      → (env : Env) → Delivered id start (handle msg env w).1.db

Delivered-HasOneDraft :
    (id : ℕ) (start : Db) {d : Db}
    → Delivered id start d
    → HasOneDraft id (length start.transactions) d
Delivered-HasOneDraft id start Delivered.nothing = inl refl
Delivered-HasOneDraft id start (Delivered.next w r msg e env) =
    let before = Delivered-HasOneDraft id start r in
    subst (λ i. HasOneDraft i (length start.transactions) (handle msg env w).1.db) e
      ((handle-Keeps (length start.transactions) msg).holds env w (rw e before))

-- However often results of a document are delivered, one after the other and whatever fails in
-- each delivery, at most one transaction is made, and where one is, the document is pending no
-- more.
pub one_draft_at_most :
    (id : ℕ) (start : Db) {d : Db}
    → Delivered id start d
    → (length d.transactions ≤ suc (length start.transactions))
      × (length d.transactions ≢ length start.transactions → IsTaken id d)
one_draft_at_most id start {d} r = once d (Delivered-HasOneDraft id start r)
  where
    once :
        (d : Db)
        → HasOneDraft id (length start.transactions) d
        → (length d.transactions ≤ suc (length start.transactions))
          × (length d.transactions ≢ length start.transactions → IsTaken id d)
    once d (inl e) = (omega (arith, e), λ other. absurd (other e))
    once d (inr (taken, small)) = (small, λ _. taken)
