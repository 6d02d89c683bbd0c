-- ===== src/Approval/Scenarios.antt =====
-- The runs of one transaction with two steps, from the draft to its end.
use expense.Base.{
  trim_space, trim_left, ℕ, ◌≡◌, refl, ℤ, pos, true, false, none, some, [], ◌∷◌, codes, find, ◌==◌,
}
use expense.Store.Rows.{Status, DecisionWord, Transaction, Approval, ApprovalRule}
use expense.Store.DocumentRows.{Document, OcrStatus}
use expense.Authz.{Actor, transaction_view, check_org_write, can, is_member_active}
use expense.Store.World.{
  ok, err, invalid_transition, submit_validation, Db, IdentityClient, Env, World, run, ask,
  finish_tx, exec_tx,
}
use expense.Store.Access.{get_user_project_actions}
use expense.Store.Transactions.{
  has_id, get_transaction, lock_transaction, count_transaction_documents, submit_transaction,
  approve_transaction, reject_transaction,
}
use expense.Store.Approvals.{
  create_approval, list_approvals_by_transaction, list_decisions_by_transaction,
  get_approval_for_decide, approval_has_decision, insert_decision, create_approval_decision,
  cancel_pending_approvals, activate_approval_step,
}
use expense.Store.Rules.{resolve_project_rules, resolve_default_rules}
use expense.Store.Outbox.{create_outbox_event, emit}
use expense.Amount.{decimal, format_int, write_groups, group_text, group_digits, format_amount}
use expense.Approval.Notify.{
  unknown, valid_email, notification_targets, notification_event, emit_step_activated,
  emit_decision_received,
}
use expense.Approval.Submit.{
  SubmitResult, or_default_rules, resolve_rules, user_info, approver_name, approver_email,
  member_role, create_one, create_approvals, notify_first, open_chain, open_with_rules, submit_body,
  submit_tx, first_activated_approver, check_submit, submit_result, submit,
}
use expense.Approval.Decide.{
  find_next_step, activate_step, follow, activate_next, DecideInput, DecideResult, check_decision,
  check_turn, move_on, announce, settle, decide_body, decide,
}
use expense.Approval.Requests.{Request, after}

abbrev pub creator : Actor
creator = record { user_id = 7; org_id = 3; role = codes "member" }

abbrev pub first_approver : Actor
first_approver = record { user_id = 20; org_id = 3; role = codes "admin" }

abbrev pub last_approver : Actor
last_approver = record { user_id = 21; org_id = 3; role = codes "admin" }

abbrev pub draft : Transaction
draft = record {
  id = 1;
  organization_id = 3;
  project_id = 5;
  status = Status.draft;
  description = none;
  total_amount = pos 1500;
  currency = codes "IDR";
  category = none;
  created_by = 7;
  created_by_name = codes "Ani";
  created_by_email = codes "a@b";
  created_by_role = codes "member";
  submitted_at = none;
  decided_at = none;
  created_at = 1;
  updated_at = 1;
  deleted_at = none;
  version = 1;
}

abbrev pub rule : ℕ → ℕ → ℤ → ApprovalRule
rule id approver step = record {
  id = id;
  organization_id = 3;
  project_id = none;
  approver_id = approver;
  step = step;
  created_by = 7;
  created_at = id;
  updated_at = id;
  deleted_at = none;
}

abbrev pub receipt : Document
receipt = record {
  id = 2;
  transaction_id = some 1;
  storage_path = codes "2";
  file_name = codes "a.jpg";
  file_size = pos 10;
  mime_type = codes "image/jpeg";
  file_hash = none;
  ocr_status = OcrStatus.pending;
  ocr_data = none;
  ocr_processed_at = none;
  uploaded_by = 7;
  created_at = 1;
  deleted_at = none;
  project_id = 5;
  uploaded_by_name = codes "Ani";
  uploaded_by_email = codes "a@b";
  uploaded_by_role = codes "member";
  ocr_document_id = none;
  idempotency_key = none;
  upload_complete = true;
  ocr_submit_attempted_at = none;
}

abbrev pub start : Db
start = record {
  transactions = draft ∷ [];
  items = [];
  approvals = [];
  decisions = [];
  rules = rule 10 20 (pos 1) ∷ rule 11 21 (pos 2) ∷ [];
  documents = receipt ∷ [];
  projects = [];
  members =
      record {
        organization_id = 3;
        project_id = 5;
        user_id = 7;
        role_id = 6;
        created_at = 1;
        updated_at = 1;
        version = 1;
      }
      ∷ [];
  roles =
      record {
        id = 6;
        project_id = 5;
        name = codes "r";
        is_system = true;
        created_by = 7;
        created_at = 1;
        updated_at = 1;
        deleted_at = none;
      }
      ∷ [];
  permissions = record { role_id = 6; action = transaction_view } ∷ [];
  outbox = [];
  next_id = 100;
}

abbrev pub identity : IdentityClient
identity = record {
  is_member_active = λ _ _ _. some true;
  get_member_role = λ _ _ _. some (codes "member");
  get_users_info = λ _ _. some [];
  get_org_status = λ _ _. some (false, false);
  is_service_access_allowed = λ _ _ _. some true;
  is_member_active_strict = λ _ _ _. some true;
  hold_expense_write_access = λ _ _ _. some (record {
    is_held = true;
    member_active = true;
    service_allowed = true;
    is_frozen = false;
    is_deleted = false;
  });
}

abbrev pub quiet : Env
quiet = record { fails = λ _. false; now = λ n. n; identity = identity; validate = λ _. true }

abbrev pub world : Db → World
world d = record { db = d; tick = 0; tx_time = none }

abbrev pub submitted_db : Db
submitted_db = after (Request.whole_submit creator 1) quiet (world start)

abbrev pub approving : DecideInput
approving = record { decision = DecisionWord.approved; notes = none }

abbrev pub rejecting : DecideInput
rejecting = record { decision = DecisionWord.rejected; notes = some (codes "no") }

abbrev pub unexplained : DecideInput
unexplained = record { decision = DecisionWord.rejected; notes = some (codes " ") }

abbrev pub halfway : Db
halfway = after (Request.one_decide first_approver 100 approving) quiet (world submitted_db)

abbrev pub finished : Db
finished = after (Request.one_decide last_approver 101 approving) quiet (world halfway)

abbrev pub refused : Db
refused = after (Request.one_decide first_approver 100 rejecting) quiet (world submitted_db)

abbrev pub pending_row : Transaction
pending_row = record draft {
  status = Status.pending_approval;
  submitted_at = some 3;
  updated_at = 3;
  version = 2;
}

abbrev pub approved_row : Transaction
approved_row = record draft {
  status = Status.approved;
  submitted_at = some 3;
  decided_at = some 0;
  updated_at = 0;
  version = 3;
}

abbrev pub rejected_row : Transaction
rejected_row = record draft {
  status = Status.rejected;
  submitted_at = some 3;
  decided_at = some 0;
  updated_at = 0;
  version = 3;
}

abbrev pub first_row : Approval
first_row = record {
  id = 100;
  transaction_id = 1;
  approver_id = 20;
  approver_name = unknown;
  approver_email = unknown;
  approver_role = codes "member";
  step = pos 1;
  activated_at = some 10;
  cancelled_at = none;
  created_at = 3;
}

abbrev pub last_row : Approval
last_row = record first_row { id = 101; approver_id = 21; step = pos 2; activated_at = some 0 }

abbrev pub submit_result_row : SubmitResult
submit_result_row = record {
  transaction_id = 1;
  status = Status.pending_approval;
  first_approver_id = 20;
}

abbrev pub halfway_result : DecideResult
halfway_result = record {
  approval = record {
    id = 100;
    step = pos 1;
    approver_id = 20;
    approver_name = unknown;
    approver_email = unknown;
    activated_at = some 10;
  };
  transaction_status = Status.pending_approval;
  next_step_activated = true;
}

-- Two rules of one step: two siblings owe a decision.
abbrev pub siblings : Db
siblings =
    after (Request.whole_submit creator 1) quiet
      (world (record start { rules = rule 10 20 (pos 1) ∷ rule 11 21 (pos 1) ∷ [] }))

-- `Decide` reports an approved transaction although the second sibling still owes its decision.
abbrev pub sibling_result : DecideResult
sibling_result = record {
  approval = halfway_result.approval;
  transaction_status = Status.approved;
  next_step_activated = false;
}

-- What the runs leave in the tables and return, the rejection with blank notes and the decision of
-- one of two siblings among them.
pub runs :
    (find (has_id 1) halfway.transactions ≡ some pending_row)
    × (find (has_id 1) finished.transactions ≡ some approved_row)
    × (find (has_id 1) refused.transactions ≡ some rejected_row)
    × (find (λ b. b.id == 100) finished.approvals ≡ some first_row)
    × (find (λ b. b.id == 101) finished.approvals ≡ some last_row)
    × (find (λ b. b.id == 100) refused.approvals ≡ some first_row)
    × ((submit creator 1 quiet (world start)).0 ≡ ok submit_result_row)
    × ((decide first_approver 100 approving quiet (world submitted_db)).0 ≡ ok halfway_result)
    × ((decide first_approver 100 approving quiet (world halfway)).0 ≡ err invalid_transition)
    × ((decide first_approver 100 unexplained quiet (world submitted_db)).0 ≡ err submit_validation)
    × ((decide first_approver 100 approving quiet (world siblings)).0 ≡ ok sibling_result)
    × (find
          (has_id 1)
          (after
            (Request.one_decide first_approver 100 approving)
            quiet
            (world siblings)).transactions
        ≡ some pending_row)
unfolding submit check_submit check_org_write get_transaction can get_user_project_actions submit_tx
    exec_tx finish_tx submit_body lock_transaction count_transaction_documents open_with_rules
    resolve_rules or_default_rules resolve_project_rules resolve_default_rules open_chain
    submit_transaction create_approvals create_one member_role create_approval notify_first
    emit_step_activated format_amount group_digits group_text write_groups format_int decimal
    notification_event notification_targets valid_email emit create_outbox_event submit_result
    first_activated_approver list_approvals_by_transaction approver_name approver_email user_info
    run ask after decide check_decision decide_body check_turn settle move_on announce
    approval_has_decision get_approval_for_decide create_approval_decision insert_decision
    is_member_active activate_next activate_step follow find_next_step list_decisions_by_transaction
    approve_transaction activate_approval_step emit_decision_received reject_transaction
    cancel_pending_approvals trim_space trim_left
runs = (refl, refl, refl, refl, refl, refl, refl, refl, refl, refl, refl, refl)
