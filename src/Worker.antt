-- ===== src/Worker.antt =====
-- internal/service/outbox/service.go: the worker that brings the outbox to Kafka.
use expense.Base.{
  ℕ, ◌+◌, ◌*◌, Bool, Option, none, some, List, [], ◌∷◌, Text, codes, leb, if◌then◌else◌,
}
use expense.Store.Rows.{Topic, Payload, OutboxEvent}
use expense.Store.World.{
  Env, World, Result, ok, err, failure, M, pure, raise, ◌>>=◌, ◌>>◌, run, ask,
}
use expense.Store.Queue.{
  seconds, claim_pending_outbox_events, mark_outbox_event_published, mark_outbox_event_failed,
}
mod Chosen
mod Leases
mod Delivery
mod Waiting
mod Progress
mod Examples

-- The record of a topic; its headers name the event. The version's text is the number here, the
-- value's JSON the payload, and the type's text the payload's constructor.
pub record KafkaRecord : Type 0 where
  pub topic : Topic
  pub key : ℕ
  pub value : Payload
  pub event_id : ℕ
  pub event_version : ℕ
  pub source_service : Text
  pub aggregate_type : Text
  pub aggregate_id : ℕ

abbrev pub record_of : OutboxEvent → KafkaRecord
record_of e = record {
  topic = e.topic;
  key = e.aggregate_id;
  value = e.payload;
  event_id = e.id;
  event_version = e.event_version;
  source_service = codes "expense";
  aggregate_type = e.aggregate_type;
  aggregate_id = e.aggregate_id;
}

-- kafka.Producer, which stands in another module: at a moment it takes the record, or fails with
-- a text.
abbrev pub Producer : Type 0
Producer = ℕ → KafkaRecord → Option Text

-- `min(AttemptCount+1, 6)` times 5 seconds.
abbrev pub backoff : (attempt_count : ℕ) → ℕ
backoff n = (if leb (n + 1) 6 then n + 1 else 6) * seconds 5

-- An error that is only logged.
abbrev pub logged : {A : Type 0} → Result A × World → Result (Unit {0}) × World
logged (r, w) = (ok tt, w)

abbrev pub ignore_error : {A : Type 0} → M A → M (Unit {0})
ignore_error m env w = logged (m env w)

abbrev pub after_publish : OutboxEvent → Option Text → M (Unit {0})
after_publish e none = run (mark_outbox_event_published e.id)
after_publish e (some error) = do
  now ← ask (λ env t. env.now t)
  ignore_error (run (mark_outbox_event_failed e.id (now + backoff e.attempt_count) error))
  raise failure

unfoldable pub publish_event : Producer → OutboxEvent → M (Unit {0})
publish_event producer e = do
  answer ← ask (λ env t. producer t (record_of e))
  after_publish e answer

unfoldable pub publish_all : Producer → List OutboxEvent → M (Unit {0})
unfolding publish_event
publish_all producer [] = pure tt
publish_all producer (e ∷ es) = ignore_error (publish_event producer e) >> publish_all producer es

-- A batch size of zero (or less) is the default.
abbrev pub batch_of : ℕ → ℕ
batch_of n = if leb n 0 then 100 else n

unfoldable pub publish_pending : Producer → (worker : Text) (batch_size : ℕ) → M (Unit {0})
unfolding publish_all
publish_pending producer worker batch_size = do
  events ← run (claim_pending_outbox_events (batch_of batch_size) worker)
  publish_all producer events
