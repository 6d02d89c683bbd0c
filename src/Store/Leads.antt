-- ===== src/Store/Leads.antt =====
-- Calls that make use of what an earlier one has found: from a database in `P` they leave one in
-- `R`, whether they succeed or fail.
use expense.Base.{ℕ, suc, some, inl, inr, Bool-cases}
use expense.Store.World.{
  Db, Error, Result, ok, err, Env, World, M, ◌>>=◌, map_error, Statement, run, clock, exec_tx,
  finish_tx,
}
use expense.Store.Hoare.{Succeeds, Triple}
use expense.Store.Keeps.{Keeps}
use expense.Store.Frames.{then_holds}

pub record Leads {A : Type 0} (P R : Db → Type 0) (m : M A) : Type 0 where
  pub holds : (env : Env) (w : World) → P w.db → R (m env w).1.db

module _ {A : Type 0} (R : Db → Type 0) where
  finish :
      (env : Env) (w : World) (r : Result A × World)
      → R w.db
      → Succeeds (λ _ d. R d) r
      → R (finish_tx env w r).1.db
  unfolding finish_tx
  finish env w (ok a, w') p h = elim (Bool-cases (env.fails w'.tick)) [
    | inl e ↦ rw e p
    | inr e ↦ rw e h
  ]
  finish env w (err e, w') p h = p

module _ {A : Type 0} {P R : Db → Type 0} where
  pub Leads-Keeps : {m : M A} → ((d : Db) → P d → R d) → Keeps R m → Leads P R m
  Leads-Keeps k h = record { holds = λ env w p. h.holds env w (k w.db p) }

  -- ExecTx leaves the tables as they were, or as its body left them.
  pub Leads-exec_tx :
      {m : M A} → ((d : Db) → P d → R d) → Triple P m (λ _ d. R d) → Leads P R (exec_tx m)
  unfolding exec_tx
  Leads-exec_tx {m} k h = record {
    holds = λ env w p. elim (Bool-cases (env.fails w.tick)) [
      | inl e ↦ rw e (k w.db p)
      | inr e ↦ rw e (
          let w' : World = record w { tick = suc w.tick; tx_time = some (env.now w.tick) } in
          finish R env w (m env w') (k w.db p) (h.holds env w' p))
    ];
  }

module _ {A : Type 0} {P R : Db → Type 0} where
  pub Leads-map_error : (f : Error → Error) (m : M A) → Leads P R m → Leads P R (map_error f m)
  Leads-map_error f m h = record { holds = λ env w p. h.holds env w p }

module _ {A : Type 0} where
  pub Leads-weaken :
      {P R P' R' : Db → Type 0} {m : M A}
      → ((d : Db) → P' d → P d)
      → ((d : Db) → R d → R' d)
      → Leads P R m
      → Leads P' R' m
  Leads-weaken f g k = record { holds = λ env w p. g _ (k.holds env w (f w.db p)) }

  -- What a call leaves anyhow, it leaves where it succeeds.
  pub of_leads : {P R : Db → Type 0} {m : M A} → Leads P R m → Triple P m (λ _ d. R d)
  of_leads {P} {R} {m} k = record { holds = λ env w p. left R (m env w) (k.holds env w p) }
    where
      left : (R : Db → Type 0) (r : Result A × World) → R r.1.db → Succeeds (λ _ d. R d) r
      left R (ok a, w) p = p
      left R (err e, w) p = tt

  pub Leads-run :
      {P R : Db → Type 0} (s : Statement A)
      → ((d : Db) → P d → R d)
      → ((now : ℕ) (d : Db) → P d → R (s now d).1)
      → Leads P R (run s)
  unfolding run
  Leads-run s weak k = record {
    holds = λ env w p. elim (Bool-cases (env.fails w.tick)) [
      | inl e ↦ rw e (weak w.db p)
      | inr e ↦ rw e (k (clock env w) w.db p)
    ];
  }

module _ {A B : Type 0} {P : Db → Type 0} where
  -- What the first call finds is there for the second.
  pub Keeps-then :
      {Q : A → Db → Type 0} {m : M A} {f : A → M B}
      → Triple P m Q
      → Keeps P m
      → ((a : A) → Leads (Q a) P (f a))
      → Keeps P (m >>= f)
  Keeps-then {f} h k g = record {
    holds = λ env w p. then_holds f h k (λ d p. p) (λ a env w q. (g a).holds env w q) env w p;
  }

module _ {A B : Type 0} {P R : Db → Type 0} where
  pub Leads-then :
      {Q : A → Db → Type 0} {m : M A} {f : A → M B}
      → Triple P m Q
      → Keeps P m
      → ((d : Db) → P d → R d)
      → ((a : A) → Leads (Q a) R (f a))
      → Leads P R (m >>= f)
  Leads-then {f} h k weak g = record {
    holds = λ env w p. then_holds f h k weak (λ a env w q. (g a).holds env w q) env w p;
  }

  pub Leads-bind :
      {m : M A} {f : A → M B} → Leads P R m → ((a : A) → Keeps R (f a)) → Leads P R (m >>= f)
  Leads-bind {m} {f} h k = record {
    holds = λ env w p. chained R f env (m env w) (h.holds env w p) k;
  }
    where
      chained :
          (R : Db → Type 0) (f : A → M B) (env : Env) (r : Result A × World)
          → R r.1.db
          → ((a : A) → Keeps R (f a))
          → let result : Result B × World = elim r.0 [
            | ok a ↦ f a env r.1
            | err e ↦ (err e, r.1)
          ] in
            R result.1.db
      chained R f env (ok a, w) h k = (k a).holds env w h
      chained R f env (err e, w) h k = h
