-- ===== src/Store/Hoare.antt =====
-- What ExecTx promises, and rules to reason about what a service call leaves in the database.
use expense.Base.{
  ℕ, suc, Bool, false, some, ◌≡◌, refl, arith, inl, inr, Bool-cases, if◌then◌else◌, none, Option,
}
use expense.Store.World.{
  Db, Error, Result, ok, err, failure, Env, World, M, pure, raise, raise_if, ◌>>=◌, Statement, run,
  ask, map_error, exec_tx, finish_tx, clock, one,
}

-- `Q` holds of the value and the database where the call returns no error.
abbrev pub Succeeds : {A : Type 0} → (A → Db → Type 0) → Result A × World → Type 0
Succeeds Q (ok a, w) = Q a w.db
Succeeds Q (err e, w) = Unit

abbrev pub Yields : {A : Type 0} → (A → Db → Type 0) → Result A × Db → Type 0
Yields Q (ok a, d) = Q a d
Yields Q (err e, d) = Unit

-- From a database in `P` the call, if it succeeds, leaves one in `Q`.
pub record Triple {A : Type 0} (P : Db → Type 0) (m : M A) (Q : A → Db → Type 0) : Type 0 where
  pub holds : (env : Env) (w : World) → P w.db → Succeeds Q (m env w)

Succeeds-bind :
    {A B : Type 0} {Q : A → Db → Type 0} {R : B → Db → Type 0} (f : A → M B) (env : Env)
    (r : Result A × World)
    → Succeeds Q r
    → ((a : A) → Triple (Q a) (f a) R)
    → Succeeds R (let (x, w') = r in elim x [ ok a ↦ f a env w' | err e ↦ (err e, w') ])
Succeeds-bind f env (ok a, w) h k = (k a).holds env w h
Succeeds-bind f env (err e, w) h k = tt

module _ {A B : Type 0} {P : Db → Type 0} {Q : A → Db → Type 0} {R : B → Db → Type 0} where
  pub bind :
      {m : M A} {f : A → M B}
      → Triple P m Q
      → ((a : A) → Triple (Q a) (f a) R)
      → Triple P (m >>= f) R
  bind {m} {f} h k = record { holds = λ env w p. Succeeds-bind f env (m env w) (h.holds env w p) k }

module _ {A : Type 0} (Q : A → Db → Type 0) where
  Succeeds-weaken :
      (R : A → Db → Type 0) (r : Result A × World)
      → Succeeds Q r
      → ((a : A) (d : Db) → Q a d → R a d)
      → Succeeds R r
  Succeeds-weaken R (ok a, w) h k = k a w.db h
  Succeeds-weaken R (err e, w) h k = tt

  Succeeds-finish :
      (env : Env) (w : World) (r : Result A × World) → Succeeds Q r → Succeeds Q (finish_tx env w r)
  unfolding finish_tx
  Succeeds-finish env w (ok a, w') h = elim (Bool-cases (env.fails w'.tick)) [
    | inl e ↦ rw e tt
    | inr e ↦ rw e h
  ]
  Succeeds-finish env w (err e, w') h = tt

  Succeeds-run :
      (env : Env) (w : World) (r : Result A × Db)
      → Yields Q r
      → Succeeds Q (
          if env.fails w.tick
          then (err failure, record w { tick = suc w.tick })
          else (r.0, record w { db = r.1; tick = suc w.tick }))
  Succeeds-run env w (ok a, d) h = elim (Bool-cases (env.fails w.tick)) [
    | inl e ↦ rw e tt
    | inr e ↦ rw e h
  ]
  Succeeds-run env w (err x, d) h = elim (Bool-cases (env.fails w.tick)) [
    | inl e ↦ rw e tt
    | inr e ↦ rw e tt
  ]

  Succeeds-map_error :
      (f : Error → Error) (r : Result A × World)
      → Succeeds Q r
      → Succeeds Q (let (x, w') = r in (elim x [ ok a ↦ ok a | err e ↦ err (f e) ], w'))
  Succeeds-map_error f (ok a, w) h = h
  Succeeds-map_error f (err e, w) h = tt

module _ {A : Type 0} {P : Db → Type 0} {Q : A → Db → Type 0} where
  pub weaken :
      {R : A → Db → Type 0} {m : M A}
      → Triple P m Q
      → ((a : A) (d : Db) → Q a d → R a d)
      → Triple P m R
  weaken {R} {m} h k = record {
    holds = λ env w p. Succeeds-weaken Q R (m env w) (h.holds env w p) k;
  }

  pub strengthen :
      {R : Db → Type 0} {m : M A} → ((d : Db) → R d → P d) → Triple P m Q → Triple R m Q
  strengthen k h = record { holds = λ env w r. h.holds env w (k w.db r) }

  -- A fact about values alone can be taken out of the precondition.
  pub assuming : {C : Type 0} {m : M A} → (C → Triple P m Q) → Triple (λ d. P d × C) m Q
  assuming h = record { holds = λ env w p. (h p.1).holds env w p.0 }

  pub run_rule :
      (s : Statement A) → ((now : ℕ) (d : Db) → P d → Yields Q (s now d)) → Triple P (run s) Q
  unfolding run
  run_rule s h = record {
    holds = λ env w p. Succeeds-run Q env w (s (clock env w) w.db) (h (clock env w) w.db p);
  }

module _ {A : Type 0} (P : Db → Type 0) where
  read-Yields :
      (f : Db → A) (r : Result A × Db) (d : Db)
      → r ≡ (ok (f d), d)
      → P d
      → Yields (λ a e. P e × (a ≡ f e)) r
  read-Yields f r d e p = rw e (p, refl)

  read_one-Yields :
      (o : Option A) (r : Result A × Db) (d : Db) (f : Db → Option A)
      → r ≡ (one o, d)
      → f d ≡ o
      → P d
      → Yields (λ a e. P e × (f e ≡ some a)) r
  read_one-Yields none r d f e g p = rw e tt
  read_one-Yields (some a) r d f e g p = rw e (p, g)

-- A query gives what it reads off the tables.
module _ {A : Type 0} {P : Db → Type 0} where
  pub read_rule :
      (s : Statement A) (f : Db → A)
      → ((now : ℕ) (d : Db) → s now d ≡ (ok (f d), d))
      → Triple P (run s) (λ a d. P d × (a ≡ f d))
  read_rule s f h = run_rule s (λ now d p. read-Yields P f (s now d) d (h now d) p)

  pub read_one_rule :
      (s : Statement A) (f : Db → Option A)
      → ((now : ℕ) (d : Db) → s now d ≡ (one (f d), d))
      → Triple P (run s) (λ a d. P d × (f d ≡ some a))
  read_one_rule s f h =
      run_rule s (λ now d p. read_one-Yields P (f d) (s now d) d f (h now d) refl p)

module _ {A : Type 0} {P : Db → Type 0} {Q : A → Db → Type 0} where
  pub tx_rule : {m : M A} → Triple P m Q → Triple P (exec_tx m) Q
  unfolding exec_tx
  tx_rule {m} h = record {
    holds = λ env w p. elim (Bool-cases (env.fails w.tick)) [
      | inl e ↦ rw e tt
      | inr e ↦ rw e (
          Succeeds-finish Q env w
            (m env (record w { tick = suc w.tick; tx_time = some (env.now w.tick) }))
            (h.holds env (record w { tick = suc w.tick; tx_time = some (env.now w.tick) }) p))
    ];
  }

  pub map_error_rule : (f : Error → Error) (m : M A) → Triple P m Q → Triple P (map_error f m) Q
  map_error_rule f m h = record {
    holds = λ env w p. Succeeds-map_error Q f (m env w) (h.holds env w p);
  }

module _ {P : Db → Type 0} where
  pub raise_if_rule : (c : Bool) (e : Error) → Triple P (raise_if c e) (λ _ d. P d × (c ≡ false))
  raise_if_rule c e = record { holds = λ env w p. ground (arith, p) }

  pub raise_rule : {A : Type 0} {Q : A → Db → Type 0} (e : Error) → Triple {A = A} P (raise e) Q
  raise_rule e = record { holds = λ env w p. tt }

  pub pure_rule : {A : Type 0} (a : A) → Triple P (pure a) (λ x d. P d × (x ≡ a))
  pure_rule a = record { holds = λ env w p. (p, refl) }

  pub ask_rule : {A : Type 0} (f : Env → ℕ → A) → Triple P (ask f) (λ _ d. P d)
  unfolding ask
  ask_rule f = record { holds = λ env w p. p }
