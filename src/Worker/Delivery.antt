-- ===== src/Worker/Delivery.antt =====
-- The outbox is delivered at least once: an event is marked published only after the producer has
-- taken its record.
use expense.Base.{
  ℕ, ◌≡◌, refl, arith, Bool, true, Option, none, some, List, [], ◌∷◌, Text, All, All-head, All-tail,
  All-map, All-pair, All-update, is_some, any, ◌==◌, ◌∙◌, ◌+◌, update, sym,
}
use expense.Store.Rows.{OutboxEvent}
use expense.Store.World.{Db, Env, World, M, failure, run, ask}
use expense.Store.Hoare.{Triple, run_rule}
use expense.Store.Keeps.{Keeps, Keeps-bind, Keeps-ask, Keeps-run, Keeps-raise}
use expense.Store.Frames.{then_holds}
use expense.Store.Queue.{
  locked_for, chosen, is_unpublished, claim_pending_outbox_events, mark_outbox_event_published,
  mark_outbox_event_failed,
}
use expense.Worker.{
  record_of, Producer, backoff, ignore_error, after_publish, publish_event, publish_all, batch_of,
  publish_pending,
}
use expense.Worker.Chosen.{All-chosen, All-locked}

-- At some moment the producer has taken the event's record.
abbrev pub Taken : Producer → OutboxEvent → Type 0
Taken producer e = (t : ℕ) × (producer t (record_of e) ≡ none)

abbrev pub IsDelivered : Producer → OutboxEvent → Type 0
IsDelivered producer e = is_some e.published_at ≡ true → Taken producer e

-- The rows that have the event's id have its record.
abbrev Agree : List OutboxEvent → OutboxEvent → Type 0
Agree es c = All (λ e. e.id ≡ c.id → record_of e ≡ record_of c) es

-- One id has one record, as the primary key ensures.
abbrev pub HasOneRecordEach : List OutboxEvent → Type 0
HasOneRecordEach es =
    All (λ (c : OutboxEvent). All (λ (e : OutboxEvent). e.id ≡ c.id → record_of e ≡ record_of c) es)
      es

module _ (producer : Producer) where
  -- What holds while the events `es` wait to be published.
  abbrev Runs : List OutboxEvent → Db → Type 0
  Runs cs d = All (IsDelivered producer) d.outbox × All (Agree d.outbox) cs

  Taken-agrees :
      (c e : OutboxEvent) → record_of e ≡ record_of c → Taken producer c → Taken producer e
  Taken-agrees c e same (t, taken) = (t, rw same taken)

  -- An update that changes no record.
  Agree-update :
      (p : OutboxEvent → Bool) (f : OutboxEvent → OutboxEvent)
      → ((e : OutboxEvent) → (f e).id ≡ e.id)
      → ((e : OutboxEvent) → record_of (f e) ≡ record_of e)
      → (es cs : List OutboxEvent) → All (Agree es) cs
      → All (Agree (update p f es)) cs
  Agree-update p f id same es cs h =
      All-map cs
        (λ c agree. All-update p f es (λ e _ k x. same e ∙ k (sym (id e) ∙ x)) (λ e _ k. k) agree) h

  published-Runs :
      (c : OutboxEvent) (cs : List OutboxEvent)
      → Taken producer c
      → (now : ℕ) (d : Db) → Runs (c ∷ cs) d
      → Runs (c ∷ cs) (mark_outbox_event_published c.id now d).1
  unfolding mark_outbox_event_published
  published-Runs c cs taken now d h =
      let mark = λ (e : OutboxEvent). record e {
        published_at = some now;
        locked_at = none;
        locked_by = none;
        last_error = none;
      } in
      (
        All-update (is_unpublished c.id) mark d.outbox
            (λ e u k. λ _. Taken-agrees c e (k.1 (ground (arith, u))) taken) (λ e u k. k.0)
            (All-pair d.outbox h.0 (All-head h.1)),
        Agree-update (is_unpublished c.id) mark (λ e. refl) (λ e. refl) d.outbox (c ∷ cs) h.1,
      )

  failed-Runs :
      (c : OutboxEvent) (cs : List OutboxEvent) (next : ℕ) (error : Text) (now : ℕ) (d : Db)
      → Runs (c ∷ cs) d
      → Runs (c ∷ cs) (mark_outbox_event_failed c.id next error now d).1
  unfolding mark_outbox_event_failed
  failed-Runs c cs next error now d h = (
    All-update (is_unpublished c.id) _ d.outbox (λ e u k. k) (λ e u k. k) h.0,
    Agree-update (is_unpublished c.id) _ (λ e. refl) (λ e. refl) d.outbox (c ∷ cs) h.1,
  )

  ignore_error-Keeps :
      {A : Type 0} {P : Db → Type 0} (m : M A) → Keeps P m → Keeps P (ignore_error m)
  ignore_error-Keeps m h = record { holds = λ env w p. h.holds env w p }

  after_publish-Runs :
      (c : OutboxEvent) (cs : List OutboxEvent) (answer : Option Text)
      → (answer ≡ none → Taken producer c)
      → Keeps (Runs (c ∷ cs)) (after_publish c answer)
  after_publish-Runs c cs none taken =
      Keeps-run (mark_outbox_event_published c.id) (published-Runs c cs (taken refl))
  after_publish-Runs c cs (some error) taken = Keeps-bind (Keeps-ask _) (λ now.
      Keeps-bind
        (ignore_error-Keeps
          (run (mark_outbox_event_failed c.id (now + backoff c.attempt_count) error))
          (Keeps-run (mark_outbox_event_failed c.id (now + backoff c.attempt_count) error)
            (failed-Runs c cs (now + backoff c.attempt_count) error)))
        (λ _. Keeps-raise failure))

  publish_event-Runs :
      (c : OutboxEvent) (cs : List OutboxEvent) → Keeps (Runs (c ∷ cs)) (publish_event producer c)
  unfolding publish_event ask
  publish_event-Runs c cs = record {
    holds = λ env w h.
        (after_publish-Runs c cs (producer w.tick (record_of c)) (λ e. (w.tick, e))).holds env
          (record w { tick = ℕ.suc w.tick }) h;
  }

  publish_all-Runs :
      (cs : List OutboxEvent) (env : Env) (w : World)
      → Runs cs w.db
      → All (IsDelivered producer) (publish_all producer cs env w).1.db.outbox
  unfolding publish_all
  publish_all-Runs [] env w h = h.0
  publish_all-Runs (c ∷ cs) env w h =
      let k = (publish_event-Runs c cs).holds env w h in
      publish_all-Runs cs env (publish_event producer c env w).1 (k.0, All-tail k.1)

  -- What holds before the worker claims, and is left where the claim fails.
  abbrev Starts : Db → Type 0
  Starts d = All (IsDelivered producer) d.outbox × All (Agree d.outbox) d.outbox

  claim-Runs :
      (limit : ℕ) (worker : Text)
      → Triple Starts (run (claim_pending_outbox_events limit worker)) Runs
  unfolding claim_pending_outbox_events
  claim-Runs limit worker = run_rule (claim_pending_outbox_events limit worker) (λ now d h.
      let es = chosen now limit d.outbox in
      let p = λ (e : OutboxEvent). any (λ c. c.id == e.id) es in
      (
        All-update p (locked_for now worker) d.outbox (λ e u k. k) (λ e u k. k) h.0,
        All-locked now worker es (λ e agree. agree)
            (All-map es (λ e k. k.0)
              (All-chosen now limit d.outbox (
                Agree-update p (locked_for now worker) (λ e. refl) (λ e. refl) d.outbox d.outbox
                  h.1))),
      ))

  claim-Starts :
      (limit : ℕ) (worker : Text) → Keeps Starts (run (claim_pending_outbox_events limit worker))
  unfolding claim_pending_outbox_events
  claim-Starts limit worker = Keeps-run (claim_pending_outbox_events limit worker) (λ now d h.
      let p = λ (e : OutboxEvent). any (λ c. c.id == e.id) (chosen now limit d.outbox) in
      let agree =
        Agree-update p (locked_for now worker) (λ e. refl) (λ e. refl) d.outbox d.outbox h.1 in
      (
        All-update p (locked_for now worker) d.outbox (λ e u k. k) (λ e u k. k) h.0,
        All-update p (locked_for now worker) d.outbox (λ e u k. k) (λ e u k. k) agree,
      ))

  -- An event is marked published only after the producer took its record: where this holds of the
  -- rows, and rows of one id have one record, it holds after a round of the worker, whatever fails
  -- in it.
  pub publish_pending-IsDelivered :
      (worker : Text) (batch_size : ℕ) (env : Env) (w : World)
      → HasOneRecordEach w.db.outbox
      → All (IsDelivered producer) w.db.outbox
      → All (IsDelivered producer) (publish_pending producer worker batch_size env w).1.db.outbox
  unfolding publish_pending
  publish_pending-IsDelivered worker batch_size env w h k =
      then_holds (publish_all producer) (claim-Runs (batch_of batch_size) worker)
        (claim-Starts (batch_of batch_size) worker) (λ d p. p.0)
        (λ es env w p. publish_all-Runs es env w p) env w (k, h)
