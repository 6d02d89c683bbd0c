-- ===== src/Worker/Waiting.antt =====
-- No event is stuck: an unpublished one can be claimed again five minutes after the worker's round.
use expense.Base.{
  ℕ, suc, ◌+◌, ◌≤◌, ◌<◌, ◌≡◌, refl, inl, inr, arith, true, Option, none, some, List, [], ◌∷◌, Text,
  All, All-update, is_none, Bool-cases,
}
use expense.Store.Rows.{OutboxEvent}
use expense.Store.World.{Db, Env, World, Result, ok, err, Statement, run, ask}
use expense.Store.Queue.{
  seconds, locked_for, is_unpublished, is_claimable, claim_pending_outbox_events,
  mark_outbox_event_published, mark_outbox_event_failed,
}
use expense.Worker.{
  record_of, Producer, backoff, after_publish, publish_event, publish_all, batch_of,
  publish_pending,
}

-- After `bound` the event is published, or a worker may claim it.
abbrev pub IsClaimableAfter : (bound : ℕ) → OutboxEvent → Type 0
IsClaimableAfter bound e =
    (now : ℕ) → bound < now → is_none e.published_at ≡ true → is_claimable now e ≡ true

backoff_small : (n : ℕ) → backoff n ≤ seconds 30
backoff_small n = ground arith

module _ (end : ℕ) where
  -- The clock reads at most `end`, and no database transaction is open.
  abbrev Waits : World → Type 0
  Waits w = (w.tx_time ≡ none) × All (IsClaimableAfter (end + seconds 300)) w.db.outbox

  locked_waits :
      (now : ℕ) (worker : Text) (e : OutboxEvent)
      → now ≤ end
      → IsClaimableAfter (end + seconds 300) e
      → IsClaimableAfter (end + seconds 300) (locked_for now worker e)
  locked_waits now worker e h k later l p = ground (arith, k later l p)

  failed_waits :
      (now n : ℕ) (error : Text) (e : OutboxEvent)
      → now ≤ end
      → IsClaimableAfter (end + seconds 300) (record e {
        attempt_count = e.attempt_count + 1;
        next_attempt_at = some (now + backoff n);
        last_error = some error;
        locked_at = none;
        locked_by = none;
      })
  failed_waits now n error e h later l p = ground (arith, backoff_small n)

  module _ (env : Env) (bounded : (n : ℕ) → env.now n ≤ end) where
    run-Waits :
        {A : Type 0} (s : Statement A) (w : World)
        → ((now : ℕ) (d : Db)
            → now ≤ end
            → All (IsClaimableAfter (end + seconds 300)) d.outbox
            → All (IsClaimableAfter (end + seconds 300)) (s now d).1.outbox)
        → Waits w
        → Waits (run s env w).1
    unfolding run
    run-Waits s w k (tx, h) = elim (Bool-cases (env.fails w.tick)) [
      | inl e ↦ rw e (tx, h)
      | inr e ↦ rw (e, tx) (refl, k (env.now w.tick) w.db (bounded w.tick) h)
    ]

    claim-Waits :
        (limit : ℕ) (worker : Text) (w : World)
        → Waits w
        → Waits (run (claim_pending_outbox_events limit worker) env w).1
    unfolding claim_pending_outbox_events
    claim-Waits limit worker w h =
        run-Waits (claim_pending_outbox_events limit worker) w
          (λ now d b k.
            All-update _ (locked_for now worker) d.outbox (λ e u q. locked_waits now worker e b q)
              (λ e u q. q) k)
          h

    after_publish-Waits :
        (c : OutboxEvent) (answer : Option Text) (w : World)
        → Waits w
        → Waits (after_publish c answer env w).1
    unfolding ask mark_outbox_event_published mark_outbox_event_failed
    after_publish-Waits c none w h =
        run-Waits (mark_outbox_event_published c.id) w
          (λ now d b k.
            All-update (is_unpublished c.id) _ d.outbox (λ e u q later l p. absurd (cc))
              (λ e u q. q) k)
          h
    after_publish-Waits c (some error) w h =
        run-Waits (mark_outbox_event_failed c.id (env.now w.tick + backoff c.attempt_count) error)
          (record w { tick = suc w.tick })
          (λ now d b k.
            All-update (is_unpublished c.id) _ d.outbox
              (λ e u q. failed_waits (env.now w.tick) c.attempt_count error e (bounded w.tick))
              (λ e u q. q) k)
          h

    publish_all-Waits :
        (producer : Producer) (es : List OutboxEvent) (w : World)
        → Waits w
        → Waits (publish_all producer es env w).1
    unfolding publish_all publish_event ask
    publish_all-Waits producer [] w h = h
    publish_all-Waits producer (e ∷ es) w h =
        publish_all-Waits producer es (publish_event producer e env w).1
          (after_publish-Waits e (producer w.tick (record_of e)) (record w { tick = suc w.tick }) h)

    chained-Waits :
        (producer : Producer) (r : Result (List OutboxEvent) × World)
        → Waits r.1
        → let after : Result (Unit {0}) × World = elim r.0 [
          | ok es ↦ publish_all producer es env r.1
          | err e ↦ (err e, r.1)
        ] in
          Waits after.1
    chained-Waits producer (ok es, w) h = publish_all-Waits producer es w h
    chained-Waits producer (err e, w) h = h

-- No event is stuck, whatever fails in a round of the worker: where the clock reads at most `end`
-- during the round and no database transaction is open, if before it every unpublished event can
-- be claimed at each time later than `end` and five minutes, then so it is after it.
pub publish_pending-IsClaimable :
    (producer : Producer) (worker : Text) (batch_size end : ℕ) (env : Env) (w : World)
    → ((n : ℕ) → env.now n ≤ end)
    → w.tx_time ≡ none
    → All (IsClaimableAfter (end + seconds 300)) w.db.outbox
    → All
        (IsClaimableAfter (end + seconds 300))
        (publish_pending producer worker batch_size env w).1.db.outbox
unfolding publish_pending
publish_pending-IsClaimable producer worker batch_size end env w bounded tx h =
    (chained-Waits end env bounded producer
      (run (claim_pending_outbox_events (batch_of batch_size) worker) env w)
      (claim-Waits end env bounded (batch_of batch_size) worker w (tx, h))).1
