-- ===== src/Worker/Progress.antt =====
-- A round in which nothing fails publishes every event that it claims.
use expense.Base.{
  ℕ, suc, ◌≡◌, subst, ap, sym, refl, arith, true, false, none, List, [], ◌∷◌, Text, map, All,
  All-head, All-tail, All-map, All-every, All-update, is_some,
}
use expense.Store.Rows.{OutboxEvent}
use expense.Store.World.{Db, Env, World, Result, ok, err, run, ask, clock}
use expense.Store.Frames.{run-ok}
use expense.Store.Queue.{
  locked_for, chosen, is_unpublished, claim_pending_outbox_events, mark_outbox_event_published,
}
use expense.Worker.{
  KafkaRecord, record_of, Producer, publish_event, publish_all, batch_of, publish_pending,
}

-- Every row with this id is published.
abbrev pub IsPublishedIn : List OutboxEvent → (id : ℕ) → Type 0
IsPublishedIn es id = All (λ (e : OutboxEvent). e.id ≡ id → is_some e.published_at ≡ true) es

module _ (producer : Producer) (env : Env) (no_failure : (n : ℕ) → env.fails n ≡ false)
    (takes : (t : ℕ) (r : KafkaRecord) → producer t r ≡ none) where
  -- The moment at which the worker marks the event.
  abbrev marked_at : World → ℕ
  marked_at w = clock env (record w { tick = suc w.tick })

  publish_event-marks :
      (c : OutboxEvent) (w : World)
      → (publish_event producer c env w).1.db
        ≡ (mark_outbox_event_published c.id (marked_at w) w.db).1
  unfolding publish_event ask run
  publish_event-marks c w = rw (takes w.tick (record_of c), no_failure (suc w.tick)) refl

  mark-publishes :
      (id now : ℕ) (d : Db) → IsPublishedIn (mark_outbox_event_published id now d).1.outbox id
  unfolding mark_outbox_event_published
  mark-publishes id now d =
      All-update (is_unpublished id) _ d.outbox (λ e u _ same. refl)
        (λ e u _ same. ground (arith, u, same)) (All-every {P = λ _. Unit {0}} d.outbox (λ e. tt))

  mark-keeps :
      (id now : ℕ) (d : Db) (cs : List ℕ)
      → All (IsPublishedIn d.outbox) cs
      → All (IsPublishedIn (mark_outbox_event_published id now d).1.outbox) cs
  unfolding mark_outbox_event_published
  mark-keeps id now d cs h =
      All-map cs
        (λ c k. All-update (is_unpublished id) _ d.outbox (λ e u q same. refl) (λ e u q. q) k) h

  publish_all-publishes :
      (es : List OutboxEvent) (cs : List ℕ) (w : World)
      → All (IsPublishedIn w.db.outbox) cs
      → let after = (publish_all producer es env w).1.db.outbox in
        All (IsPublishedIn after) cs × All (λ (e : OutboxEvent). IsPublishedIn after e.id) es
  unfolding publish_all
  publish_all-publishes [] cs w h = (h, All.none)
  publish_all-publishes (e ∷ es) cs w h =
      let w' = (publish_event producer e env w).1 in
      let here : IsPublishedIn w'.db.outbox e.id =
        rw (publish_event-marks e w) (mark-publishes e.id (marked_at w) w.db) in
      let before : All (IsPublishedIn w'.db.outbox) cs =
        rw (publish_event-marks e w) (mark-keeps e.id (marked_at w) w.db cs h) in
      let rest = publish_all-publishes es (e.id ∷ cs) w' (All.also here before) in
      (All-tail rest.0, All.also (All-head rest.0) rest.1)

  -- The world in which the worker has claimed its batch.
  abbrev claimed_world : (worker : Text) (limit : ℕ) → World → World
  claimed_world worker limit w = record w {
    db = (claim_pending_outbox_events limit worker (clock env w) w.db).1;
    tick = suc w.tick;
  }

  publish_pending-claims :
      (worker : Text) (batch_size : ℕ) (w : World)
      → let es = chosen (clock env w) (batch_of batch_size) w.db.outbox in
        publish_all producer
          (map (locked_for (clock env w) worker) es)
          env
          (claimed_world worker (batch_of batch_size) w)
        ≡ publish_pending producer worker batch_size env w
  unfolding publish_pending claim_pending_outbox_events
  publish_pending-claims worker batch_size w =
      let s = claim_pending_outbox_events (batch_of batch_size) worker in
      ap
        (λ (r : Result (List OutboxEvent) × World). elim r.0 as (λ _. Result (Unit {0}) × World) [
          | ok es ↦ publish_all producer es env r.1
          | err e ↦ (err e, r.1)
        ])
        (sym (run-ok s env w (no_failure w.tick)))

  All-of_locked :
      {P : OutboxEvent → Type 0} (now : ℕ) (worker : Text) (es : List OutboxEvent)
      → All P (map (locked_for now worker) es)
      → All (λ e. P (locked_for now worker e)) es
  All-of_locked now worker [] h = All.none
  All-of_locked now worker (e ∷ es) h =
      All.also (All-head h) (All-of_locked now worker es (All-tail h))

  -- A round of the worker publishes every event that it claims, where no statement fails and the
  -- producer takes every record: the oldest events that can be claimed, as many as the batch holds.
  pub publish_pending-IsPublishedIn :
      (worker : Text) (batch_size : ℕ) (w : World)
      → All
          (λ (c : OutboxEvent).
            IsPublishedIn (publish_pending producer worker batch_size env w).1.db.outbox c.id)
          (chosen (clock env w) (batch_of batch_size) w.db.outbox)
  publish_pending-IsPublishedIn worker batch_size w =
      let es = chosen (clock env w) (batch_of batch_size) w.db.outbox in
      subst
        (λ (r : Result (Unit {0}) × World).
          All (λ (c : OutboxEvent). IsPublishedIn r.1.db.outbox c.id) es)
        (publish_pending-claims worker batch_size w)
        (All-of_locked (clock env w) worker es
          (publish_all-publishes (map (locked_for (clock env w) worker) es) []
            (claimed_world worker (batch_of batch_size) w) All.none).1)
