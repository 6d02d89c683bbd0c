-- ===== src/Projects/Outcomes.antt =====
-- What a project request that succeeds found in the tables, and the way back from the archive.
use expense.Base.{
  ℕ, ◌≡◌, ◌∙◌, refl, arith, Bool, true, false, not, ◌==◌, ◌&&◌, Option, none, some, List, [], ◌∷◌,
  count, find, update, is_some, is_none, ltb, All, All-head, All-tail, ap₂, subst,
}
use expense.Store.Rows.{Project, Transaction}
use expense.Store.DocumentRows.{Document}
use expense.Store.World.{
  Db, Env, World, Result, ok, err, no_rows, not_found, project_has_transactions,
  project_has_documents,
}
use expense.Store.Hoare.{
  Yields, Triple, bind, weaken, run_rule, read_rule, read_one_rule, raise_if_rule, map_error_rule,
  tx_rule, pure_rule,
}
use expense.Store.Frames.{successful}
use expense.Store.Outbox.{emit, create_outbox_event}
use expense.Store.Projects.{
  is_project, change_project, archive_project, unarchive_project, count_project_documents,
  count_project_transactions, lock_project_for_delete, soft_delete_project,
}
use expense.Authz.{Actor}
use expense.Approval.Submit.{or_not_found}
use expense.Projects.{ProjectView, to_project, delete_body, archive_body, unarchive_body}
use expense.Projects

-- The project is there, and nothing is left in it.
pub record CanGo (actor : Actor) (id : ℕ) (d : Db) : Type 0 where
  pub project : Project
  pub found : find (is_project id actor.org_id) d.projects ≡ some project
  pub no_transactions :
      count (λ (t : Transaction). t.project_id == id && is_none t.deleted_at) d.transactions ≡ 0
  pub no_documents : count (λ (x : Document). x.project_id == id) d.documents ≡ 0

-- The project is gone from the table.
abbrev pub IsGone : (actor : Actor) (id : ℕ) → Db → Type 0
IsGone actor id d = find (is_project id actor.org_id) d.projects ≡ none

find-update_closed :
    (id org now : ℕ) (ps : List Project)
    → find
        (is_project id org)
        (update (is_project id org) (λ p. record p { deleted_at = some now; updated_at = now }) ps)
      ≡ none
find-update_closed id org now [] = refl
find-update_closed id org now (p ∷ ps) = ground (arith, find-update_closed id org now ps)

module _ (actor : Actor) (id : ℕ) (start : Db) where
  can_go :
      (p : Project) (n m now : ℕ) (d : Db)
      → ((((d ≡ start × find (is_project id actor.org_id) d.projects ≡ some p)
              × n
                ≡ count
                    (λ (t : Transaction). t.project_id == id && is_none t.deleted_at)
                    d.transactions)
            × ltb 0 n ≡ false)
          × m ≡ count (λ (x : Document). x.project_id == id) d.documents)
        × ltb 0 m ≡ false
      → CanGo actor id start
  can_go p n m now d h = subst (CanGo actor id) h.0.0.0.0.0 (record {
    project = p;
    found = h.0.0.0.0.1;
    no_transactions = ground (arith, h.0.0.0.1, h.0.0.1);
    no_documents = ground (arith, h.0.1, h.1);
  })

  delete_body-rule :
      Triple
        (λ d. d ≡ start)
        (delete_body actor id)
        (λ _ d. CanGo actor id start × IsGone actor id d)
  unfolding delete_body lock_project_for_delete count_project_transactions count_project_documents
      soft_delete_project emit create_outbox_event
  delete_body-rule =
      bind
        (read_one_rule (lock_project_for_delete id actor.org_id)
          (λ d. find (is_project id actor.org_id) d.projects) (λ now d. refl))
        (λ p. bind (read_rule (count_project_transactions id) _ (λ now d. refl)) (λ n.
          bind (raise_if_rule (ltb 0 n) project_has_transactions) (λ _.
            bind (read_rule (count_project_documents id) _ (λ now d. refl)) (λ m.
              bind (raise_if_rule (ltb 0 m) project_has_documents) (λ _.
                bind
                  (run_rule {Q = λ rows d. CanGo actor id start × IsGone actor id d}
                    (soft_delete_project id actor.org_id)
                    (λ now d h.
                      (can_go p n m now d h, find-update_closed id actor.org_id now d.projects)))
                  (λ rows.
                    bind (weaken (raise_if_rule (not (ltb 0 rows)) not_found) (λ _ d h. h.0))
                      (λ _. run_rule (create_outbox_event _ _ _ _) (λ now d h. h))))))))

-- A project that `Delete` deletes was there, without a live transaction and without any document,
-- and afterwards it is gone.
pub delete_only_empty :
    (actor : Actor) (id : ℕ) (env : Env) (w : World)
    → (Projects.delete actor id env w).0 ≡ ok tt
    → CanGo actor id w.db × IsGone actor id (Projects.delete actor id env w).1.db
unfolding Projects.delete
delete_only_empty actor id env w e =
    successful env w tt (map_error_rule or_not_found _ (tx_rule (delete_body-rule actor id w.db)))
      refl e

-- Rows that the archive takes are not there yet.
abbrev pub IsOpen : (actor : Actor) (id : ℕ) → List Project → Type 0
IsOpen actor id ps =
    All (λ (p : Project). is_project id actor.org_id p ≡ true → p.archived_at ≡ none) ps

-- The rows of the project with another time of their last change.
abbrev pub touched : (actor : Actor) (id now : ℕ) → List Project → List Project
touched actor id now ps =
    update (is_project id actor.org_id) (λ p. record p { updated_at = now }) ps

abbrev pub archived_rows : (actor : Actor) (id now : ℕ) → List Project → List Project
archived_rows actor id now ps =
    update (λ p. is_project id actor.org_id p && is_none p.archived_at)
      (λ p. record p { archived_at = some now; updated_at = now }) ps

back_again :
    (actor : Actor) (id now later : ℕ) (ps : List Project)
    → IsOpen actor id ps
    → update
        (λ p. is_project id actor.org_id p && is_some p.archived_at)
        (λ p. record p { archived_at = none; updated_at = later })
        (archived_rows actor id now ps)
      ≡ touched actor id later ps
back_again actor id now later [] h = refl
back_again actor id now later (p ∷ ps) h =
    ap₂ (λ (x : Project) (xs : List Project). x ∷ xs) (ground (arith, All-head h))
      (back_again actor id now later ps (All-tail h))

module _ (p : Project → Bool) (f : Project → Project) where
  -- An update of a project leaves the table with the change in it.
  change_project-Yields :
      (now : ℕ) (d : Db)
      → Yields
          (λ _ e. e.projects ≡ update p (λ x. record (f x) { updated_at = now }) d.projects)
          (change_project p f now d)
  change_project-Yields now d = shape (find p d.projects)
    where
      shape :
          (o : Option Project)
          → let change = λ (x : Project). record (f x) { updated_at = now } in
            let result : Result Project × Db = elim o [
              | none ↦ (err no_rows, d)
              | some x ↦ (ok (change x), record d { projects = update p change d.projects })
            ] in
            Yields (λ _ e. e.projects ≡ update p change d.projects) result
      shape none = tt
      shape (some x) = refl

module _ (actor : Actor) (id : ℕ) (ps : List Project) where
  archive-Yields :
      (now : ℕ) (d : Db)
      → d.projects ≡ ps
      → Yields
          (λ _ e. (t : ℕ) × (e.projects ≡ archived_rows actor id t ps))
          (archive_project id actor.org_id now d)
  unfolding archive_project
  archive-Yields now d h = dated (archive_project id actor.org_id now d) (
      subst
        (λ xs.
          Yields (λ _ e. e.projects ≡ archived_rows actor id now xs)
            (archive_project id actor.org_id now d))
        h
        (change_project-Yields (λ p. is_project id actor.org_id p && is_none p.archived_at)
          (λ p. record p { archived_at = some now }) now d))
    where
      dated :
          (r : Result Project × Db)
          → Yields (λ _ e. e.projects ≡ archived_rows actor id now ps) r
          → Yields (λ _ e. (t : ℕ) × (e.projects ≡ archived_rows actor id t ps)) r
      dated (ok x, e) k = (now, k)
      dated (err x, e) k = tt

  unarchive-Yields :
      (t now : ℕ) (d : Db)
      → IsOpen actor id ps
      → d.projects ≡ archived_rows actor id t ps
      → Yields
          (λ _ e. (t : ℕ) × (e.projects ≡ touched actor id t ps))
          (unarchive_project id actor.org_id now d)
  unfolding unarchive_project
  unarchive-Yields t now d o h = dated (unarchive_project id actor.org_id now d) (
      subst
        (λ xs.
          Yields
            (λ _ e.
              e.projects
              ≡ update (λ p. is_project id actor.org_id p && is_some p.archived_at)
                  (λ p. record p { archived_at = none; updated_at = now }) xs)
            (unarchive_project id actor.org_id now d))
        h
        (change_project-Yields (λ p. is_project id actor.org_id p && is_some p.archived_at)
          (λ p. record p { archived_at = none }) now d))
    where
      dated :
          (r : Result Project × Db)
          → Yields
              (λ _ e.
                e.projects
                ≡ update
                    (λ p. is_project id actor.org_id p && is_some p.archived_at)
                    (λ p. record p { archived_at = none; updated_at = now })
                    (archived_rows actor id t ps))
              r
          → Yields (λ _ e. (t : ℕ) × (e.projects ≡ touched actor id t ps)) r
      dated (ok x, e) k = (now, k ∙ back_again actor id t now ps o)
      dated (err x, e) k = tt

  archive-rule :
      Triple
        (λ d. d.projects ≡ ps)
        (Projects.archive actor id)
        (λ v d. (t : ℕ) × (d.projects ≡ archived_rows actor id t ps))
  unfolding Projects.archive archive_body emit create_outbox_event
  archive-rule =
      bind
        (map_error_rule or_not_found _ (
          tx_rule (
            bind
              (run_rule {Q = λ _ d. (t : ℕ) × (d.projects ≡ archived_rows actor id t ps)}
                (archive_project id actor.org_id) archive-Yields)
              (λ p.
                bind
                  (run_rule {Q = λ _ d. (t : ℕ) × (d.projects ≡ archived_rows actor id t ps)}
                    (create_outbox_event _ _ _ _) (λ now d h. h))
                  (λ _. weaken (pure_rule p) (λ _ d h. h.0))))))
        (λ p. weaken (pure_rule (to_project p)) (λ _ d h. h.0))

  unarchive-rule :
      (t : ℕ)
      → IsOpen actor id ps
      → Triple
          (λ d. d.projects ≡ archived_rows actor id t ps)
          (Projects.unarchive actor id)
          (λ v d. (t : ℕ) × (d.projects ≡ touched actor id t ps))
  unfolding Projects.unarchive unarchive_body emit create_outbox_event
  unarchive-rule t o =
      bind
        (map_error_rule or_not_found _ (
          tx_rule (
            bind
              (run_rule {Q = λ _ d. (t : ℕ) × (d.projects ≡ touched actor id t ps)}
                (unarchive_project id actor.org_id) (λ now d h. unarchive-Yields t now d o h))
              (λ p.
                bind
                  (run_rule {Q = λ _ d. (t : ℕ) × (d.projects ≡ touched actor id t ps)}
                    (create_outbox_event _ _ _ _) (λ now d h. h))
                  (λ _. weaken (pure_rule p) (λ _ d h. h.0))))))
        (λ p. weaken (pure_rule (to_project p)) (λ _ d h. h.0))

-- The way back from the archive: where the rows of a project are not archived, its archival and
-- then its restoration, both successful, leave the projects as they were, but for the time of the
-- last change of that project.
pub archive-unarchive :
    (actor : Actor) (id : ℕ) (env env' : Env) (w : World) (v v' : ProjectView)
    → IsOpen actor id w.db.projects
    → (Projects.archive actor id env w).0 ≡ ok v
    → (Projects.unarchive actor id env' (Projects.archive actor id env w).1).0 ≡ ok v'
    → (t : ℕ) × ((Projects.unarchive actor id env'
          (Projects.archive actor id env w).1).1.db.projects
        ≡ touched actor id t w.db.projects)
archive-unarchive actor id env env' w v v' o e e' =
    let (t, there) = successful env w v (archive-rule actor id w.db.projects) refl e in
    successful env' (Projects.archive actor id env w).1 v'
      (unarchive-rule actor id w.db.projects t o) there e'
