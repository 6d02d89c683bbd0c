-- ===== src/Store/Keeps.antt =====
-- What every call keeps of the database, whether it succeeds or not: ExecTx restores the tables
-- on an error, and a query or a call of the identity service changes none.
use expense.Base.{ℕ, suc, Bool, ◌≡◌, some, inl, inr, Bool-cases, arith}
use expense.Store.World.{
  Db, Error, Result, ok, err, Env, World, M, pure, raise, raise_if, ◌>>=◌, Statement, run, ask,
  map_error, exec_tx, finish_tx, clock,
}
use expense.Store.Hoare.{Succeeds, Triple}

-- ExecTx commits or has no effect: where it returns an error, the tables are as they were.
pub exec_tx-atomic :
    {A : Type 0} (body : M A) (env : Env) (w : World) {e : Error}
    → (exec_tx body env w).0 ≡ err e
    → (exec_tx body env w).1.db ≡ w.db
unfolding exec_tx finish_tx
exec_tx-atomic body env w h = ground arith

pub record Keeps {A : Type 0} (P : Db → Type 0) (m : M A) : Type 0 where
  pub holds : (env : Env) (w : World) → P w.db → P (m env w).1.db

module _ {A B : Type 0} (P : Db → Type 0) where
  bind_result :
      (f : A → M B) (env : Env) (r : Result A × World)
      → P r.1.db
      → ((a : A) → Keeps P (f a))
      → let result : Result B × World = elim r.0 [ ok a ↦ f a env r.1 | err e ↦ (err e, r.1) ] in
        P result.1.db
  bind_result f env (ok a, w) p k = (k a).holds env w p
  bind_result f env (err e, w) p k = p

module _ {A B : Type 0} {P : Db → Type 0} where
  pub Keeps-bind :
      {m : M A} {f : A → M B} → Keeps P m → ((a : A) → Keeps P (f a)) → Keeps P (m >>= f)
  Keeps-bind {m} {f} h k = record {
    holds = λ env w p. bind_result P f env (m env w) (h.holds env w p) k;
  }

module _ {A : Type 0} (P : Db → Type 0) where
  finish :
      (env : Env) (w : World) (r : Result A × World)
      → P w.db
      → Succeeds (λ _ d. P d) r
      → P (finish_tx env w r).1.db
  unfolding finish_tx
  finish env w (ok a, w') p h = elim (Bool-cases (env.fails w'.tick)) [
    | inl e ↦ rw e p
    | inr e ↦ rw e h
  ]
  finish env w (err e, w') p h = p

module _ {A : Type 0} {P : Db → Type 0} where
  pub Keeps-exec_tx : {m : M A} → Triple P m (λ _ d. P d) → Keeps P (exec_tx m)
  unfolding exec_tx
  Keeps-exec_tx {m} h = record {
    holds = λ env w p. elim (Bool-cases (env.fails w.tick)) [
      | inl e ↦ rw e p
      | inr e ↦ rw e (
          finish P env w (m env (record w { tick = suc w.tick; tx_time = some (env.now w.tick) })) p
            (h.holds env (record w { tick = suc w.tick; tx_time = some (env.now w.tick) }) p))
    ];
  }

  -- A statement that keeps `P` by itself, as every query does.
  pub Keeps-run : (s : Statement A) → ((now : ℕ) (d : Db) → P d → P (s now d).1) → Keeps P (run s)
  unfolding run
  Keeps-run s h = record {
    holds = λ env w p. elim (Bool-cases (env.fails w.tick)) [
      | inl e ↦ rw e p
      | inr e ↦ rw e (h (clock env w) w.db p)
    ];
  }

  pub Keeps-map_error : (f : Error → Error) (m : M A) → Keeps P m → Keeps P (map_error f m)
  Keeps-map_error f m h = record { holds = λ env w p. h.holds env w p }

module _ {P : Db → Type 0} where
  pub Keeps-ask : {A : Type 0} (f : Env → ℕ → A) → Keeps P (ask f)
  unfolding ask
  Keeps-ask f = record { holds = λ env w p. p }

  pub Keeps-pure : {A : Type 0} (a : A) → Keeps P (pure a)
  Keeps-pure a = record { holds = λ env w p. p }

  pub Keeps-raise : {A : Type 0} (e : Error) → Keeps {A = A} P (raise e)
  Keeps-raise e = record { holds = λ env w p. p }

  pub Keeps-raise_if : (c : Bool) (e : Error) → Keeps P (raise_if c e)
  Keeps-raise_if c e = record { holds = λ env w p. p }
