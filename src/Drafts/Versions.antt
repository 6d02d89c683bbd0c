-- ===== src/Drafts/Versions.antt =====
-- An edit is of the version that its author saw, or has no effect.
use expense.Base.{
  ℕ, ◌≡◌, refl, arith, subst, Bool, true, false, not, ◌||◌, ◌==◌, Option, none, some, List, find,
  is_some, codes, text_eq, if◌then◌else◌,
}
use expense.Store.Rows.{Status, status_eq, Transaction}
use expense.Store.World.{
  Db, Env, World, Result, Error, ok, err, run, exec_tx, not_found, transaction_locked,
  transaction_changed, currency_invalid, category_invalid,
}
use expense.Store.Hoare.{Triple, bind, read_one_rule, map_error_rule, raise_if_rule, tx_rule}
use expense.Store.Keeps.{
  exec_tx-atomic, Keeps, Keeps-bind, Keeps-raise_if, Keeps-raise, Keeps-run, Keeps-map_error,
  Keeps-pure,
}
use expense.Store.Frames.{settled, of_keeps, on_success, bind-atomic}
use expense.Store.Transactions.{has_id, get_transaction, lock_transaction}
use expense.Authz.{Actor, transaction_view, check_admin}
use expense.Approval.Submit.{or_not_found}
use expense.Approval.Valid.Access.{check_admin-Keeps, can-Keeps}
use expense.Drafts.{ItemInput, validate_items}
use expense.Drafts.Edit.{
  UpdateInput, can_edit_draft_row, is_category_bad, of_result, check_items, currency_of,
  check_update, save_draft, update_body, update_draft,
}

own_or_admin :
    {P : Db → Type 0} (own : Bool) (actor : Actor)
    → Keeps P (if own then (λ (env : Env) (w : World). (ok tt, w)) else check_admin actor)
own_or_admin true actor = Keeps-pure tt
own_or_admin false actor = check_admin-Keeps actor

of_result-Keeps : {P : Db → Type 0} (r : Result (Unit {0})) → Keeps P (of_result r)
of_result-Keeps (ok a) = Keeps-pure a
of_result-Keeps (err e) = Keeps-raise e

check_items-Keeps :
    {P : Db → Type 0} (items : Option (List ItemInput)) → Keeps P (check_items items)
check_items-Keeps none = Keeps-pure tt
check_items-Keeps (some items) = of_result-Keeps (validate_items items)

check_update-Keeps :
    {P : Db → Type 0} (actor : Actor) (id : ℕ) (input : UpdateInput)
    → Keeps P (check_update actor id input)
unfolding check_update can_edit_draft_row get_transaction
check_update-Keeps actor id input =
    Keeps-bind
      (Keeps-map_error or_not_found (run (get_transaction id actor.org_id))
        (Keeps-run (get_transaction id actor.org_id) (λ now d p. p)))
      (λ t.
        Keeps-bind
          (Keeps-bind (can-Keeps actor t.project_id transaction_view)
            (λ _. own_or_admin (t.created_by == actor.user_id) actor))
          (λ _.
            Keeps-bind
              (Keeps-raise_if (not (text_eq (currency_of t input) (codes "IDR"))) currency_invalid)
              (λ _.
                Keeps-bind (Keeps-raise_if (is_category_bad input.category) category_invalid)
                  (λ _. Keeps-bind (check_items-Keeps input.items) (λ _. Keeps-pure t)))))

-- The draft is there, live, of the actor's organization, and in the version that was seen.
pub record Current (actor : Actor) (id : ℕ) (input : UpdateInput) (d : Db) : Type 0 where
  pub row : Transaction
  pub locked : find (has_id id) d.transactions ≡ some row
  pub own : row.organization_id ≡ actor.org_id
  pub live : row.deleted_at ≡ none
  pub draft : row.status ≡ Status.draft
  pub seen : row.version ≡ input.expected_version

update_body_guard :
    (actor : Actor) (id : ℕ) (t : Transaction) (input : UpdateInput) (before : Db)
    → Triple (λ d. d ≡ before) (update_body actor id t input) (λ _ _. Current actor id input before)
unfolding update_body lock_transaction
update_body_guard actor id t input before =
    bind
      (map_error_rule or_not_found (run (lock_transaction id)) (
        read_one_rule (lock_transaction id) (λ d. find (has_id id) d.transactions) (λ now d. refl)))
      (λ row.
        bind
          (raise_if_rule (not (row.organization_id == actor.org_id) || is_some row.deleted_at)
            not_found)
          (λ _.
            bind (raise_if_rule (not (status_eq row.status Status.draft)) transaction_locked) (λ _.
              bind {f = λ _. save_draft actor id t input}
                (raise_if_rule (not (row.version == input.expected_version)) transaction_changed)
                (λ _. settled (save_draft actor id t input) (λ d h.
                  subst (Current actor id input) h.0.0.0.0 (record {
                    row = row;
                    locked = h.0.0.0.1;
                    own = ground (arith, h.0.0.1);
                    live = ground (arith, h.0.0.1);
                    draft = ground (arith, h.0.1);
                    seen = ground (arith, h.1);
                  }))))))

-- `Update` succeeds only on a live draft of the actor's organization whose version is the one that
-- the request expects.
pub update_draft-Current :
    (actor : Actor) (id : ℕ) (input : UpdateInput) (env : Env) (w : World) (result : Transaction)
    → (update_draft actor id input env w).0 ≡ ok result
    → Current actor id input w.db
unfolding update_draft
update_draft-Current actor id input env w result e =
    on_success env w result
      (bind (of_keeps (check_update-Keeps {P = λ d. d ≡ w.db} actor id input))
        (λ t. tx_rule (update_body_guard actor id t input w.db)))
      refl e

-- An `Update` that returns an error, up to the commit of its database transaction, has changed no
-- table: neither the draft nor its items.
pub update_draft-atomic :
    (actor : Actor) (id : ℕ) (input : UpdateInput) (env : Env) (w : World) {e : Error}
    → (update_draft actor id input env w).0 ≡ err e
    → (update_draft actor id input env w).1.db ≡ w.db
unfolding update_draft
update_draft-atomic actor id input env w h =
    bind-atomic (check_update actor id input) (λ t. exec_tx (update_body actor id t input)) env w
      ((check_update-Keeps {P = λ d. d ≡ w.db} actor id input).holds env w refl)
      (λ t w' e. exec_tx-atomic (update_body actor id t input) env w' e) h
