-- ===== src/Store/Queue.antt =====
-- The statements of internal/repository/outbox_events.sql.go that the worker runs.
use expense.Base.{
  ℕ, ◌+◌, ◌*◌, ◌^◌, Bool, true, false, ◌&&◌, ◌||◌, Option, none, some, List, Text, ltb, leb, filter,
  any, count, update, sort_by, take, is_none, not, ◌==◌, map,
}
use expense.Store.Rows.{OutboxEvent}
use expense.Store.World.{ok, Statement}

-- The clock counts nanoseconds.
abbrev pub seconds : ℕ → ℕ
seconds n = n * 10 ^ 9

-- `next_attempt_at IS NULL OR next_attempt_at <= NOW()`.
abbrev pub is_due : ℕ → Option ℕ → Bool
is_due now none = true
is_due now (some t) = leb t now

-- `locked_at IS NULL OR locked_at < NOW() - INTERVAL '5 minutes'`.
abbrev pub is_free : ℕ → Option ℕ → Bool
is_free now none = true
is_free now (some t) = ltb (t + seconds 300) now

abbrev pub is_claimable : ℕ → OutboxEvent → Bool
is_claimable now e =
    is_none e.published_at && is_due now e.next_attempt_at && is_free now e.locked_at

-- ORDER BY created_at ASC, id ASC.
abbrev pub is_older : OutboxEvent → OutboxEvent → Bool
is_older a b = ltb a.created_at b.created_at || (a.created_at == b.created_at && ltb a.id b.id)

abbrev pub locked_for : ℕ → (worker : Text) → OutboxEvent → OutboxEvent
locked_for now worker e = record e { locked_at = some now; locked_by = some worker }

abbrev pub chosen : ℕ → (limit : ℕ) → List OutboxEvent → List OutboxEvent
chosen now limit es = take limit (sort_by is_older (filter (is_claimable now) es))

-- RETURNING names no order; here the events come in the order in which they were chosen. Rows that
-- another claim has locked are skipped, and there are none between statements.
unfoldable pub claim_pending_outbox_events :
    (limit : ℕ) (worker : Text) → Statement (List OutboxEvent)
claim_pending_outbox_events limit worker now d =
    let events = chosen now limit d.outbox in
    (
      ok (map (locked_for now worker) events),
      record d {
        outbox = update (λ e. any (λ c. c.id == e.id) events) (locked_for now worker) d.outbox;
      },
    )

abbrev pub is_unpublished : (id : ℕ) → OutboxEvent → Bool
is_unpublished id e = e.id == id && is_none e.published_at

unfoldable pub mark_outbox_event_published : (id : ℕ) → Statement (Unit {0})
mark_outbox_event_published id now d = (
  ok tt,
  record d {
    outbox =
        update (is_unpublished id)
          (λ e. record e {
            published_at = some now;
            locked_at = none;
            locked_by = none;
            last_error = none;
          })
          d.outbox;
  },
)

unfoldable pub mark_outbox_event_failed :
    (id next_attempt_at : ℕ) (last_error : Text) → Statement (Unit {0})
mark_outbox_event_failed id next error now d = (
  ok tt,
  record d {
    outbox =
        update (is_unpublished id)
          (λ e. record e {
            attempt_count = e.attempt_count + 1;
            next_attempt_at = some next;
            last_error = some error;
            locked_at = none;
            locked_by = none;
          })
          d.outbox;
  },
)

unfoldable pub release_outbox_event_lock : (id : ℕ) → Statement (Unit {0})
release_outbox_event_lock id now d = (
  ok tt,
  record d {
    outbox =
        update (is_unpublished id) (λ e. record e { locked_at = none; locked_by = none }) d.outbox;
  },
)

-- `published_at < NOW() - INTERVAL '7 days'`.
abbrev pub is_stale : ℕ → Option ℕ → Bool
is_stale now none = false
is_stale now (some t) = ltb (t + seconds 604800) now

unfoldable pub delete_published_outbox_events : Statement ℕ
delete_published_outbox_events now d = (
  ok (count (λ (e : OutboxEvent). is_stale now e.published_at) d.outbox),
  record d { outbox = filter (λ e. not (is_stale now e.published_at)) d.outbox },
)
