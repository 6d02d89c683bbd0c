-- ===== src/Store/Outbox.antt =====
-- The transactional outbox: CreateOutboxEvent of internal/repository/outbox_events.sql.go, and
-- `Emit` of internal/service/event.go, which every service announces its changes by.
use expense.Base.{ℕ, suc, none, [], ◌∷◌, ◌++◌, Text}
use expense.Store.Rows.{Topic, Payload, OutboxEvent}
use expense.Store.World.{ok, M, Statement, run}

abbrev pub event_row :
    (now id : ℕ) (aggregate_type : Text) (aggregate_id : ℕ) → Topic → Payload → OutboxEvent
event_row now id kind aggregate topic payload = record {
  id = id;
  aggregate_type = kind;
  aggregate_id = aggregate;
  event_version = 1;
  topic = topic;
  payload = payload;
  created_at = now;
  published_at = none;
  attempt_count = 0;
  next_attempt_at = none;
  locked_at = none;
  locked_by = none;
  last_error = none;
}

unfoldable pub create_outbox_event :
    (aggregate_type : Text) (aggregate_id : ℕ) → Topic → Payload → Statement (Unit {0})
create_outbox_event kind aggregate topic payload now d = (
  ok tt,
  record d {
    outbox = d.outbox ++ event_row now d.next_id kind aggregate topic payload ∷ [];
    next_id = suc d.next_id;
  },
)

-- The event's payload is JSON there, and its own data here.
unfoldable pub emit : (aggregate_type : Text) (aggregate_id : ℕ) → Topic → Payload → M (Unit {0})
emit kind aggregate topic payload = run (create_outbox_event kind aggregate topic payload)
