-- ===== src/Store/Frames.antt =====
-- What the runs of a service call share: facts carried along, and errors without effect.
use expense.Base.{◌≡◌, ◌∙◌, refl, subst, false, suc}
use expense.Store.World.{Db, Env, World, M, Result, Error, ok, err, ◌>>=◌, Statement, run, clock}
use expense.Store.Hoare.{Succeeds, Triple}
use expense.Store.Keeps.{Keeps}

module _ {A : Type 0} where
  -- What a call keeps can be carried along.
  pub and_keeps :
      {P R : Db → Type 0} {Q : A → Db → Type 0} {m : M A}
      → Triple P m Q
      → Keeps R m
      → Triple (λ d. P d × R d) m (λ a d. Q a d × R d)
  and_keeps {P} {R} {Q} {m} h k = record {
    holds = λ env w p. both Q R (m env w) (h.holds env w p.0) (k.holds env w p.1);
  }
    where
      both :
          (Q : A → Db → Type 0) (R : Db → Type 0) (r : Result A × World)
          → Succeeds Q r
          → R r.1.db
          → Succeeds (λ a d. Q a d × R d) r
      both Q R (ok a, w) h k = (h, k)
      both Q R (err e, w) h k = tt

  Succeeds-anyhow : {C : Type 0} (r : Result A × World) → C → Succeeds (λ _ _. C) r
  Succeeds-anyhow (ok a, w) c = c
  Succeeds-anyhow (err e, w) c = tt

  -- A fact about the values outlasts every call.
  pub settled :
      {C : Type 0} {P : Db → Type 0} (m : M A) → ((d : Db) → P d → C) → Triple P m (λ _ _. C)
  settled m k = record { holds = λ env w p. Succeeds-anyhow (m env w) (k w.db p) }

  pub of_keeps : {P : Db → Type 0} {m : M A} → Keeps P m → Triple P m (λ _ d. P d)
  of_keeps {P} {m} k = record { holds = λ env w p. kept P (m env w) (k.holds env w p) }
    where
      kept : (P : Db → Type 0) (r : Result A × World) → P r.1.db → Succeeds (λ _ d. P d) r
      kept P (ok a, w) p = p
      kept P (err e, w) p = tt

  -- The conclusion of a triple on a run that succeeds.
  pub on_success :
      {C : Type 0} {P : Db → Type 0} {m : M A} (env : Env) (w : World) (a : A)
      → Triple P m (λ _ _. C)
      → P w.db
      → (m env w).0 ≡ ok a
      → C
  on_success {C} {m} env w a h p e = taken (m env w) (h.holds env w p) e
    where
      taken : {C : Type 0} (r : Result A × World) → Succeeds (λ _ _. C) r → r.0 ≡ ok a → C
      taken (ok b, w') c e = c
      taken (err x, w') c e = cc

module _ {A B : Type 0} where
  -- A call that changes nothing, then one that has no effect where it fails.
  pub bind-atomic :
      (m : M A) (f : A → M B) (env : Env) (w : World) {e : Error}
      → (m env w).1.db ≡ w.db
      → ((a : A) (w' : World) → (f a env w').0 ≡ err e → (f a env w').1.db ≡ w'.db)
      → ((m >>= f) env w).0 ≡ err e
      → ((m >>= f) env w).1.db ≡ w.db
  bind-atomic m f env w same k h = atomic f env w.db (m env w) same k h
    where
      atomic :
          (f : A → M B) (env : Env) (d : Db) (r : Result A × World) {e : Error}
          → r.1.db ≡ d
          → ((a : A) (w' : World) → (f a env w').0 ≡ err e → (f a env w').1.db ≡ w'.db)
          → let result : Result B × World = elim r.0 [
            | ok a ↦ f a env r.1
            | err e ↦ (err e, r.1)
          ] in
            result.0 ≡ err e → result.1.db ≡ d
      atomic f env d (ok a, w') same k h = k a w' h ∙ same
      atomic f env d (err x, w') same k h = same

  -- A call on what the first one leaves where it succeeds, else that.
  pub then_holds :
      {P R : Db → Type 0} {Q : A → Db → Type 0} {m : M A} (f : A → M B)
      → Triple P m Q
      → Keeps P m
      → ((d : Db) → P d → R d)
      → ((a : A) (env : Env) (w : World) → Q a w.db → R (f a env w).1.db)
      → (env : Env) (w : World) → P w.db
      → R ((m >>= f) env w).1.db
  then_holds {P} {R} {Q} {m} f h k weak g env w p =
      chained R Q f env (m env w) (h.holds env w p) (weak _ (k.holds env w p)) g
    where
      chained :
          (R : Db → Type 0) (Q : A → Db → Type 0) (f : A → M B) (env : Env) (r : Result A × World)
          → Succeeds Q r
          → R r.1.db
          → ((a : A) (env : Env) (w : World) → Q a w.db → R (f a env w).1.db)
          → let result : Result B × World = elim r.0 [
            | ok a ↦ f a env r.1
            | err e ↦ (err e, r.1)
          ] in
            R result.1.db
      chained R Q f env (ok a, w) h k g = g a env w h
      chained R Q f env (err e, w) h k g = k

-- A statement that the environment lets through.
pub run-ok :
    {A : Type 0} (s : Statement A) (env : Env) (w : World)
    → env.fails w.tick ≡ false
    → run s env w
      ≡ ((s (clock env w) w.db).0, record w { db = (s (clock env w) w.db).1; tick = suc w.tick })
unfolding run
run-ok s env w e = rw e refl

-- What a run that succeeds leaves.
pub successful :
    {A : Type 0} {P : Db → Type 0} {Q : A → Db → Type 0} {m : M A} (env : Env) (w : World) (a : A)
    → Triple P m Q
    → P w.db
    → (m env w).0 ≡ ok a
    → Q a (m env w).1.db
successful {Q} {m} env w a h p e = taken Q (m env w) (h.holds env w p) e
  where
    taken :
        {A : Type 0} {a : A} (Q : A → Db → Type 0) (r : Result A × World)
        → Succeeds Q r
        → r.0 ≡ ok a
        → Q a r.1.db
    taken {a} Q (ok b, w) c e = let same : b ≡ a = cc in subst (λ x. Q x w.db) same c
    taken Q (err x, w) c e = cc
