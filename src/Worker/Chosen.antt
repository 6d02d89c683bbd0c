-- ===== src/Worker/Chosen.antt =====
-- The events that a claim chooses, and their ids.
use expense.Base.{
  ℕ, ◌<◌, ◌≡◌, refl, All-pair, inl, inr, arith, Bool, true, false, subst, List, [], ◌∷◌, Text, take,
  filter, any, map, All, All-head, All-tail, All-sort_by, All-filter, ◌==◌, Bool-cases,
}
use expense.Store.Rows.{OutboxEvent}
use expense.Store.World.{Db, Result, ok, err}
use expense.Store.Queue.{is_claimable, is_older, locked_for, chosen}

pub All-take :
    {P : OutboxEvent → Type 0} (n : ℕ) (xs : List OutboxEvent) → All P xs → All P (take n xs)
All-take ℕ.zero xs h = All.none
All-take (ℕ.suc n) [] h = All.none
All-take (ℕ.suc n) (x ∷ xs) h = All.also (All-head h) (All-take n xs (All-tail h))

All-passed : (p : OutboxEvent → Bool) (xs : List OutboxEvent) → All (λ x. p x ≡ true) (filter p xs)
All-passed p [] = All.none
All-passed p (x ∷ xs) = elim (Bool-cases (p x)) [
  | inl e ↦ rw e (All.also e (All-passed p xs))
  | inr e ↦ rw e (All-passed p xs)
]

-- The events of a claim pass the test, and have what every row has.
pub All-chosen :
    {P : OutboxEvent → Type 0} (now limit : ℕ) (es : List OutboxEvent)
    → All P es
    → All (λ e. P e × (is_claimable now e ≡ true)) (chosen now limit es)
All-chosen now limit es h = All-take limit _ (
    All-sort_by is_older _ (
      All-pair (filter (is_claimable now) es) (All-filter (is_claimable now) es h)
        (All-passed (is_claimable now) es)))

-- The events that a claim returns.
abbrev pub events_of : Result (List OutboxEvent) × Db → List OutboxEvent
events_of (ok es, d) = es
events_of (err e, d) = []

pub any_id_locked :
    (id now : ℕ) (worker : Text) (es : List OutboxEvent)
    → any (λ c. c.id == id) (map (locked_for now worker) es) ≡ any (λ c. c.id == id) es
any_id_locked id now worker [] = refl
any_id_locked id now worker (e ∷ es) = ground (arith, any_id_locked id now worker es)

pub All-locked :
    {Q : OutboxEvent → Type 0} (now : ℕ) (worker : Text) (es : List OutboxEvent)
    → ((e : OutboxEvent) → Q e → Q (locked_for now worker e))
    → All Q es
    → All Q (map (locked_for now worker) es)
All-locked now worker [] k h = All.none
All-locked now worker (e ∷ es) k h =
    All.also (k e (All-head h)) (All-locked now worker es k (All-tail h))

module _ (ids : List OutboxEvent) where
  pub apart :
      (id : ℕ) (es : List OutboxEvent)
      → All (λ e. any (λ c. c.id == e.id) ids ≡ false) es
      → any (λ c. c.id == id) ids ≡ true
      → any (λ c. c.id == id) es ≡ false
  apart id [] h t = refl
  apart id (e ∷ es) h t = elim (Bool-cases (e.id == id)) [
    | inl f ↦
        let here : e.id ≡ id = ground (arith, f) in
        absurd (cc (subst (λ n. any (λ c. c.id == n) ids ≡ false) here (All-head h), t))
    | inr f ↦ ground (arith, f, apart id es (All-tail h) t)
  ]

pub all_below :
    (n : ℕ) (es : List OutboxEvent)
    → All (λ (c : OutboxEvent). c.id < n) es
    → any (λ c. c.id == n) es ≡ false
all_below n [] h = refl
all_below n (e ∷ es) h = ground (arith, All-head h, all_below n es (All-tail h))
