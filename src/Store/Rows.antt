-- ===== src/Store/Rows.antt =====
-- The rows of internal/repository/models.go, with the types of the columns that hold one of a few
-- words (internal/constant), and the events of the outbox.
-- A uuid.UUID is a number, a time.Time a number of ticks, a pgtype value or a pointer an `Option`.
use expense.Base.{ℕ, Bool, Option, List, Text, ℤ, true, false}

-- constant/transaction.go: `transactions.status`, held to these words by `ck_transactions_status`.
pub data Status : Type 0 where
  draft pending_approval approved rejected : Status

abbrev pub status_eq : Status → Status → Bool
status_eq Status.draft Status.draft = true
status_eq Status.pending_approval Status.pending_approval = true
status_eq Status.approved Status.approved = true
status_eq Status.rejected Status.rejected = true
status_eq _ _ = false

-- The text of a decision: one of the two words of constant/transaction.go, or any other text.
pub data DecisionWord : Type 0 where
  approved rejected : DecisionWord
  other : Text → DecisionWord

abbrev pub is_approved : DecisionWord → Bool
is_approved DecisionWord.approved = true
is_approved _ = false

abbrev pub is_rejected : DecisionWord → Bool
is_rejected DecisionWord.rejected = true
is_rejected _ = false

pub record Transaction : Type 0 where
  pub id : ℕ
  pub organization_id : ℕ
  pub project_id : ℕ
  pub status : Status
  pub description : Option Text
  pub total_amount : ℤ
  pub currency : Text
  pub category : Option Text
  pub created_by : ℕ
  pub created_by_name : Text
  pub created_by_email : Text
  pub created_by_role : Text
  pub submitted_at : Option ℕ
  pub decided_at : Option ℕ
  pub created_at : ℕ
  pub updated_at : ℕ
  pub deleted_at : Option ℕ
  pub version : ℕ

pub record TransactionItem : Type 0 where
  pub id : ℕ
  pub transaction_id : ℕ
  pub description : Text
  pub quantity : ℤ
  pub amount : ℤ
  pub created_at : ℕ
  pub updated_at : ℕ

pub record Approval : Type 0 where
  pub id : ℕ
  pub transaction_id : ℕ
  pub approver_id : ℕ
  pub approver_name : Text
  pub approver_email : Text
  pub approver_role : Text
  pub step : ℤ
  pub activated_at : Option ℕ
  pub cancelled_at : Option ℕ
  pub created_at : ℕ

pub record ApprovalDecision : Type 0 where
  pub id : ℕ
  pub approval_id : ℕ
  pub decided_by : ℕ
  pub decided_by_name : Text
  pub decided_by_email : Text
  pub decided_by_role : Text
  pub decision : DecisionWord
  pub notes : Option Text
  pub decided_at : ℕ

pub record ApprovalRule : Type 0 where
  pub id : ℕ
  pub organization_id : ℕ
  pub project_id : Option ℕ
  pub approver_id : ℕ
  pub step : ℤ
  pub created_by : ℕ
  pub created_at : ℕ
  pub updated_at : ℕ
  pub deleted_at : Option ℕ

pub record Project : Type 0 where
  pub id : ℕ
  pub organization_id : ℕ
  pub name : Text
  pub created_by : ℕ
  pub created_at : ℕ
  pub updated_at : ℕ
  pub deleted_at : Option ℕ
  pub archived_at : Option ℕ

pub record ProjectMember : Type 0 where
  pub organization_id : ℕ
  pub project_id : ℕ
  pub user_id : ℕ
  pub role_id : ℕ
  pub created_at : ℕ
  pub updated_at : ℕ
  pub version : ℕ

pub record Role : Type 0 where
  pub id : ℕ
  pub project_id : ℕ
  pub name : Text
  pub is_system : Bool
  pub created_by : ℕ
  pub created_at : ℕ
  pub updated_at : ℕ
  pub deleted_at : Option ℕ

pub record RolePermission : Type 0 where
  pub role_id : ℕ
  pub action : Text

-- constant/topic.go.
pub data Topic : Type 0 where
  audit notification_transactional : Topic

-- The channels of a notification's target: an e-mail address, or a user's devices.
pub data Target : Type 0 where
  email : Text → Target
  push : ℕ → Target

-- approval/notify.go, contract/notification.go: the payloads of the three templates.
pub data NotificationPayload : Type 0 where
  step_activated :
      (approver_name : Text) (transaction_id : ℕ) (description amount_display : Text) (step : ℤ)
      → NotificationPayload
  decision_received :
      (creator_name : Text) (transaction_id : ℕ) (description amount_display : Text)
      → DecisionWord
      → (decider_name : Text) → NotificationPayload

-- The envelope of the notification contract: its template is the payload's constructor.
pub record CreatedEvent : Type 0 where
  pub recipient_id : ℕ
  pub targets : List Target
  pub payload : NotificationPayload

-- What an outbox row carries: the event's type with the fields of its Go struct.
pub data Payload : Type 0 where
  transaction_submitted : (organization_id transaction_id actor_id : ℕ) → Payload
  transaction_decided :
      (organization_id transaction_id approval_id : ℕ) → DecisionWord → (actor_id : ℕ) → Payload
  transaction_updated :
      (organization_id transaction_id : ℕ) → ℤ → (actor_id : ℕ) (source : Text) → Payload
  transaction_deleted : (organization_id transaction_id actor_id : ℕ) → Payload
  rule_created : (organization_id : ℕ) → Option ℕ → (approver_id : ℕ) → ℤ → (actor_id : ℕ) → Payload
  rule_updated : (organization_id rule_id : ℕ) → ℤ → (actor_id : ℕ) → Payload
  rule_deleted : (organization_id rule_id actor_id : ℕ) → Payload
  rule_reassigned : (organization_id from_user_id to_user_id rule_count actor_id : ℕ) → Payload
  transaction_created :
      (organization_id transaction_id project_id : ℕ) → ℤ → (actor_id : ℕ) → Payload
  project_created project_updated project_deleted project_archived project_unarchived :
      (organization_id project_id actor_id : ℕ) → Payload
  project_member_placed : (organization_id project_id user_id role_id actor_id : ℕ) → Payload
  project_member_removed :
      (organization_id project_id user_id actor_id : ℕ) (reason : Text) → Payload
  role_created :
      (project_id role_id : ℕ) (name : Text) (actions : List Text) (actor_id : ℕ) → Payload
  role_updated role_deleted : (project_id role_id actor_id : ℕ) → Payload
  document_created :
      (organization_id document_id project_id : ℕ)
      → Option ℕ
      → (file_name : Text) → ℤ
      → (actor_id : ℕ) → Payload
  document_deleted : (organization_id document_id : ℕ) (file_name : Text) (actor_id : ℕ) → Payload
  document_accessed : (organization_id document_id actor_id : ℕ) → Payload
  notification : CreatedEvent → Payload

pub record OutboxEvent : Type 0 where
  pub id : ℕ
  pub aggregate_type : Text
  pub aggregate_id : ℕ
  pub event_version : ℕ
  pub topic : Topic
  pub payload : Payload
  pub created_at : ℕ
  pub published_at : Option ℕ
  pub attempt_count : ℕ
  pub next_attempt_at : Option ℕ
  pub locked_at : Option ℕ
  pub locked_by : Option Text
  pub last_error : Option Text
