-- ===== src/Approval/Notify.antt =====
-- internal/service/approval/notify.go: the notifications, as rows of the outbox.
use expense.Base.{
  ℕ, Bool, not, ◌&&◌, Option, none, some, List, [], ◌∷◌, ◌++◌, Text, codes, text_eq, contains_char,
  ℤ, if◌then◌else◌,
}
use expense.Amount.{format_amount}
use expense.Store.Rows.{CreatedEvent, Target, NotificationPayload, DecisionWord, Payload, Topic}
use expense.Store.World.{failure, internal, M, pure, raise, raise_if, ◌>>=◌, ◌>>◌, ask}
use expense.Store.Outbox.{emit}

-- snapshotUnknownName and snapshotUnknownEmail.
abbrev pub unknown : Text
unknown = codes "unknown"

-- ValidEmail.
unfoldable pub valid_email : Text → Bool
unfolding contains_char
valid_email email =
    not (text_eq email []) && not (text_eq email unknown) && contains_char b'@' email

-- The targets that notificationEvent builds.
unfoldable pub notification_targets : (recipient_id : ℕ) (email : Text) → List Target
unfolding valid_email
notification_targets recipient email =
    (if valid_email email then Target.email email ∷ [] else []) ++ Target.push recipient ∷ []

abbrev pub envelope : (recipient_id : ℕ) (email : Text) → NotificationPayload → CreatedEvent
envelope recipient email payload = record {
  recipient_id = recipient;
  targets = notification_targets recipient email;
  payload = payload;
}

-- The event is checked by the notification contract before it is handed on.
unfoldable pub notification_event :
    (recipient_id : ℕ) (email : Text) → NotificationPayload → M CreatedEvent
notification_event recipient email payload = do
  let event = envelope recipient email payload
  valid ← ask (λ env t. env.validate event)
  raise_if (not valid) failure
  pure event

-- A panic of FormatAmount ends the request.
abbrev pub display_amount : Option Text → M Text
display_amount none = raise internal
display_amount (some text) = pure text

unfoldable pub emit_step_activated :
    (tx_id approver_id : ℕ) (approver_name approver_email description : Text) (total : ℤ)
    (currency : Text) (step : ℤ)
    → M (Unit {0})
unfolding notification_event
emit_step_activated tx approver name email description total currency step = do
  amount ← display_amount (format_amount total currency)
  event ←
      notification_event approver email
        (NotificationPayload.step_activated name tx description amount step)
  emit (codes "transaction") tx Topic.notification_transactional (Payload.notification event)

unfoldable pub emit_decision_received :
    (tx_id creator_id : ℕ) (creator_email creator_name description : Text) (total : ℤ)
    (currency : Text)
    → DecisionWord
    → (decider_name : Text) → M (Unit {0})
unfolding notification_event
emit_decision_received tx creator email name description total currency decision decider = do
  amount ← display_amount (format_amount total currency)
  event ←
      notification_event creator email
        (NotificationPayload.decision_received name tx description amount decision decider)
  emit (codes "transaction") tx Topic.notification_transactional (Payload.notification event)
