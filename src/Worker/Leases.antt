-- ===== src/Worker/Leases.antt =====
-- A claim leases its events: no other claim gets them within five minutes.
use expense.Base.{
  ℕ, ◌+◌, ◌≤◌, ◌<◌, ◌≡◌, refl, All-map, inl, inr, arith, true, false, not, subst, All-snoc,
  All-update, List, Text, any, update, All, All-filter, ◌==◌, Bool-cases,
}
use expense.Store.Rows.{OutboxEvent, Topic, Payload}
use expense.Store.Outbox.{event_row, create_outbox_event}
use expense.Store.World.{Db}
use expense.Store.Queue.{
  seconds, is_claimable, is_unpublished, is_stale, locked_for, chosen, claim_pending_outbox_events,
  mark_outbox_event_published, mark_outbox_event_failed, release_outbox_event_lock,
  delete_published_outbox_events,
}
use expense.Worker.Chosen.{All-chosen, All-locked, events_of, any_id_locked, apart, all_below}

-- What can come between two claims: events are added, claimed, published and deleted, and other
-- events than those of `ids` are marked failed or released, no claim later than `until`.
pub data Passed (ids : List OutboxEvent) (until : ℕ) (d : Db) : Db → Type 0 where
  nothing : Passed ids until d d
  emitted :
      {e : Db}
      → Passed ids until d e
      → (kind : Text) (aggregate : ℕ) (topic : Topic) (payload : Payload) (now : ℕ)
      → Passed ids until d (create_outbox_event kind aggregate topic payload now e).1
  claimed :
      {e : Db}
      → Passed ids until d e
      → (limit : ℕ) (worker : Text) (now : ℕ) → now ≤ until
      → Passed ids until d (claim_pending_outbox_events limit worker now e).1
  published :
      {e : Db}
      → Passed ids until d e
      → (id now : ℕ) → Passed ids until d (mark_outbox_event_published id now e).1
  failed :
      {e : Db}
      → Passed ids until d e
      → (id next : ℕ) (error : Text) (now : ℕ) → any (λ c. c.id == id) ids ≡ false
      → Passed ids until d (mark_outbox_event_failed id next error now e).1
  released :
      {e : Db}
      → Passed ids until d e
      → (id now : ℕ) → any (λ c. c.id == id) ids ≡ false
      → Passed ids until d (release_outbox_event_lock id now e).1
  deleted :
      {e : Db}
      → Passed ids until d e
      → (now : ℕ) → Passed ids until d (delete_published_outbox_events now e).1

module _ (ids : List OutboxEvent) (until : ℕ) where
  -- An event of `ids` cannot be claimed.
  abbrev IsLeased : OutboxEvent → Type 0
  IsLeased e = any (λ c. c.id == e.id) ids ≡ true → (t : ℕ) → t ≤ until → is_claimable t e ≡ false

  record Leased (d : Db) : Type 0 where
    rows : All IsLeased d.outbox
    -- The events that come later have other ids.
    fresh : All (λ (c : OutboxEvent). c.id < d.next_id) ids

  All-unclaimed :
      (later : ℕ) (es : List OutboxEvent)
      → later ≤ until
      → All (λ e. IsLeased e × (is_claimable later e ≡ true)) es
      → All (λ e. any (λ c. c.id == e.id) ids ≡ false) es
  All-unclaimed later es h k =
      All-map es
        (λ e (leased, claimable). elim (Bool-cases (any (λ c. c.id == e.id) ids)) [
          | inl t ↦ absurd (ground (arith, claimable, leased t later h))
          | inr f ↦ f
        ])
        k

  claimed-Leased :
      (d : Db) (limit : ℕ) (worker : Text) (now : ℕ)
      → now ≤ until
      → Leased d
      → Leased (claim_pending_outbox_events limit worker now d).1
  unfolding claim_pending_outbox_events
  claimed-Leased d limit worker now h k =
      let es = chosen now limit d.outbox in
      let others = All-unclaimed now es h (All-chosen now limit d.outbox k.rows) in
      record {
        rows =
            All-update (λ e. any (λ c. c.id == e.id) es) (locked_for now worker) d.outbox
              (λ e hit leased t. cc (hit, apart ids e.id es others t)) (λ e miss leased. leased)
              k.rows;
        fresh = k.fresh;
      }

  emitted-Leased :
      (d : Db) (kind : Text) (aggregate : ℕ) (topic : Topic) (payload : Payload) (now : ℕ)
      → Leased d
      → Leased (create_outbox_event kind aggregate topic payload now d).1
  unfolding create_outbox_event
  emitted-Leased d kind aggregate topic payload now k = record {
    rows =
        All-snoc d.outbox (event_row now d.next_id kind aggregate topic payload) k.rows
          (λ t. cc (t, all_below d.next_id ids k.fresh));
    fresh = All-map ids (λ c b. omega (arith, b)) k.fresh;
  }

  published-Leased :
      (d : Db) (id now : ℕ) → Leased d → Leased (mark_outbox_event_published id now d).1
  unfolding mark_outbox_event_published
  published-Leased d id now k = record {
    rows =
        All-update (is_unpublished id) _ d.outbox (λ e hit leased t u h. ground arith)
          (λ e miss leased. leased) k.rows;
    fresh = k.fresh;
  }

  -- The change of an event that is not of `ids`.
  changed-Leased :
      (id : ℕ) (f : OutboxEvent → OutboxEvent) (es : List OutboxEvent)
      → any (λ c. c.id == id) ids ≡ false
      → ((e : OutboxEvent) → (f e).id ≡ e.id)
      → All IsLeased es
      → All IsLeased (update (is_unpublished id) f es)
  changed-Leased id f es out same k =
      All-update (is_unpublished id) f es
        (λ e hit leased t.
          let here : (f e).id ≡ id = ground (arith, hit, same e) in
          cc (subst (λ n. any (λ c. c.id == n) ids ≡ true) here t, out))
        (λ e miss leased. leased) k

  failed-Leased :
      (d : Db) (id next : ℕ) (error : Text) (now : ℕ)
      → any (λ c. c.id == id) ids ≡ false
      → Leased d
      → Leased (mark_outbox_event_failed id next error now d).1
  unfolding mark_outbox_event_failed
  failed-Leased d id next error now out k = record {
    rows = changed-Leased id _ d.outbox out (λ e. refl) k.rows;
    fresh = k.fresh;
  }

  released-Leased :
      (d : Db) (id now : ℕ)
      → any (λ c. c.id == id) ids ≡ false
      → Leased d
      → Leased (release_outbox_event_lock id now d).1
  unfolding release_outbox_event_lock
  released-Leased d id now out k = record {
    rows = changed-Leased id _ d.outbox out (λ e. refl) k.rows;
    fresh = k.fresh;
  }

  deleted-Leased : (d : Db) (now : ℕ) → Leased d → Leased (delete_published_outbox_events now d).1
  unfolding delete_published_outbox_events
  deleted-Leased d now k = record {
    rows = All-filter (λ e. not (is_stale now e.published_at)) d.outbox k.rows;
    fresh = k.fresh;
  }

  passed-Leased : {d e : Db} → Passed ids until d e → Leased d → Leased e
  passed-Leased Passed.nothing k = k
  passed-Leased (Passed.emitted {e} r kind aggregate topic payload now) k =
      emitted-Leased e kind aggregate topic payload now (passed-Leased r k)
  passed-Leased (Passed.claimed {e} r limit worker now h) k =
      claimed-Leased e limit worker now h (passed-Leased r k)
  passed-Leased (Passed.published {e} r id now) k = published-Leased e id now (passed-Leased r k)
  passed-Leased (Passed.failed {e} r id next error now out) k =
      failed-Leased e id next error now out (passed-Leased r k)
  passed-Leased (Passed.released {e} r id now out) k =
      released-Leased e id now out (passed-Leased r k)
  passed-Leased (Passed.deleted {e} r now) k = deleted-Leased e now (passed-Leased r k)

claim-Leased :
    (limit : ℕ) (worker : Text) (now : ℕ) (d : Db)
    → All (λ (e : OutboxEvent). e.id < d.next_id) d.outbox
    → let first = claim_pending_outbox_events limit worker now d in
      Leased (events_of first) (now + seconds 300) first.1
unfolding claim_pending_outbox_events
claim-Leased limit worker now d h =
    let es = chosen now limit d.outbox in
    record {
      rows =
          All-update (λ e. any (λ c. c.id == e.id) es) (locked_for now worker) d.outbox
            (λ e hit b t u k. ground (arith, k))
            (λ e miss b t. cc (miss, t, any_id_locked e.id now worker es)) h;
      fresh =
          All-locked now worker es (λ e b. b)
            (All-map es (λ e b. b.0) (All-chosen now limit d.outbox h));
    }

-- An event that a claim returned is not claimed again within five minutes: where the ids in the
-- outbox are below the next one, no claim at most five minutes later returns it, whatever was added,
-- published or deleted in between, whatever was claimed at most five minutes after the first claim,
-- and whichever other events were marked failed or released.
pub claims_are_disjoint :
    (limit limit' : ℕ) (worker worker' : Text) (now later : ℕ) (d e : Db)
    → later ≤ now + seconds 300
    → All (λ (x : OutboxEvent). x.id < d.next_id) d.outbox
    → let first = claim_pending_outbox_events limit worker now d in
      Passed (events_of first) (now + seconds 300) first.1 e
      → All
          (λ x. any (λ c. c.id == x.id) (events_of first) ≡ false)
          (events_of (claim_pending_outbox_events limit' worker' later e))
unfolding claim_pending_outbox_events
claims_are_disjoint limit limit' worker worker' now later d e h ids r =
    let first = claim_pending_outbox_events limit worker now d in
    let k =
      passed-Leased (events_of first) (now + seconds 300) r (claim-Leased limit worker now d ids) in
    All-locked later worker' (chosen later limit' e.outbox) (λ x q. q)
      (All-unclaimed (events_of first) (now + seconds 300) later (chosen later limit' e.outbox) h
        (All-chosen later limit' e.outbox k.rows))
