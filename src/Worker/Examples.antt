-- ===== src/Worker/Examples.antt =====
-- A queue of two events, the second of which the producer refuses.
use expense.Base.{
  ◌+◌, ◌≡◌, refl, arith, true, false, none, some, List, [], ◌∷◌, codes, All, any, ◌==◌,
}
use expense.Store.Rows.{OutboxEvent, Topic, Payload}
use expense.Store.World.{Db, Result, Env, run, ask}
use expense.Store.Outbox.{event_row}
use expense.Store.Queue.{
  seconds, chosen, claim_pending_outbox_events, mark_outbox_event_published,
  mark_outbox_event_failed,
}
use expense.Approval.Scenarios.{start, quiet, world}
use expense.Worker.{Producer, batch_of, publish_event, publish_all, publish_pending}
use expense.Worker.Chosen.{events_of}
use expense.Worker.Leases.{Passed, claims_are_disjoint}
use expense.Worker.Delivery.{IsDelivered, publish_pending-IsDelivered}
use expense.Worker.Waiting.{IsClaimableAfter, publish_pending-IsClaimable}
use expense.Worker.Progress.{IsPublishedIn, publish_pending-IsPublishedIn}

abbrev first : OutboxEvent
first = event_row 10 40 (codes "role") 6 Topic.audit (Payload.role_deleted 5 6 7)

abbrev second : OutboxEvent
second = event_row 11 41 (codes "role") 8 Topic.audit (Payload.role_deleted 5 8 7)

abbrev queue : Db
queue = record start { outbox = second ∷ first ∷ [] }

-- The clock stands at 1000.
abbrev steady : Env
steady = record quiet { now = λ _. 1000 }

abbrev refuses_second : Producer
refuses_second t r = elim (r.event_id == 41) [ true ↦ some (codes "down") | false ↦ none ]

abbrev takes_all : Producer
takes_all t r = none

-- The older event is published first; the other is tried again after five seconds.
run_of_the_worker :
    (publish_pending refuses_second (codes "w") 0 steady (world queue)).1.db.outbox
    ≡ record second {
      attempt_count = 1;
      next_attempt_at = some (1000 + seconds 5);
      last_error = some (codes "down");
    }
      ∷ record first { published_at = some 1000 }
      ∷ []
unfolding publish_pending publish_all publish_event claim_pending_outbox_events
    mark_outbox_event_published mark_outbox_event_failed run ask
run_of_the_worker = refl

-- After the first claim another worker claims the second event, and its record is refused.
abbrev claimed : Result (List OutboxEvent) × Db
claimed = claim_pending_outbox_events 1 (codes "w") 1000 queue

abbrev later_queue : Db
later_queue =
    (mark_outbox_event_failed 41 1700 (codes "down") 1600
      (claim_pending_outbox_events 1 (codes "u") 1500 claimed.1).1).1

claims_are_disjoint_example :
    All
      (λ e. any (λ c. c.id == e.id) (events_of claimed) ≡ false)
      (events_of (claim_pending_outbox_events 1 (codes "v") 2000 later_queue))
unfolding claim_pending_outbox_events
claims_are_disjoint_example =
    claims_are_disjoint 1 1 (codes "w") (codes "v") 1000 2000 queue later_queue (omega arith)
      (All.also (omega arith) (All.also (omega arith) All.none))
      (Passed.failed (Passed.claimed Passed.nothing 1 (codes "u") 1500 (omega arith)) 41 1700
        (codes "down") 1600 refl)

publish_pending-IsDelivered_example :
    All
      (IsDelivered refuses_second)
      (publish_pending refuses_second (codes "w") 0 steady (world queue)).1.db.outbox
publish_pending-IsDelivered_example =
    publish_pending-IsDelivered refuses_second (codes "w") 0 steady (world queue)
      (All.also (All.also (λ _. refl) (All.also (λ e. absurd (omega arith)) All.none))
        (All.also (All.also (λ e. absurd (omega arith)) (All.also (λ _. refl) All.none)) All.none))
      (All.also (λ e. absurd (cc)) (All.also (λ e. absurd (cc)) All.none))

publish_pending-IsClaimable_example :
    All
      (IsClaimableAfter (1000 + seconds 300))
      (publish_pending refuses_second (codes "w") 0 steady (world queue)).1.db.outbox
publish_pending-IsClaimable_example =
    publish_pending-IsClaimable refuses_second (codes "w") 0 1000 steady (world queue)
      (λ n. omega arith) refl (All.also (λ now h e. refl) (All.also (λ now h e. refl) All.none))

publish_pending-IsPublishedIn_example :
    All
      (λ (c : OutboxEvent).
        IsPublishedIn
          (publish_pending takes_all (codes "w") 0 steady (world queue)).1.db.outbox
          c.id)
      (chosen 1000 (batch_of 0) queue.outbox)
publish_pending-IsPublishedIn_example =
    publish_pending-IsPublishedIn takes_all steady (λ n. refl) (λ t r. refl) (codes "w") 0
      (world queue)
