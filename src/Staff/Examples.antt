-- ===== src/Staff/Examples.antt =====
-- An office with one project, its viewers' system role, a role of its own, and one member.
use expense.Base.{
  ℕ, ◌≡◌, Bool, refl, arith, true, false, none, some, [], ◌∷◌, codes, All, Pairwise, find,
  trim_space, trim_left, Text, text_eq, length, ltb,
}
use expense.Store.Rows.{Project, Role, ProjectMember}
use expense.Store.World.{Db, World, ok, err, project_member_changed, run, ask, exec_tx, finish_tx}
use expense.Store.Roles.{is_role, get_role, soft_delete_role, count_role_usage}
use expense.Store.Projects.{
  get_project, lock_project_for_delete, upsert_project_member, archive_project, unarchive_project,
  count_project_documents, count_project_transactions, soft_delete_project,
}
use expense.Store.Outbox.{emit, create_outbox_event}
use expense.Authz.{is_member_active_strict}
use expense.Approval.Scenarios.{creator, start, quiet, world}
use expense.Roles.{find_role, check_unlocked, delete_body, normalize_role_name}
use expense.Roles
use expense.Roles.Names.{normalize_role_name-idempotent}
use expense.Roles.Outcomes.{delete_only-Unused}
use expense.Projects.{find_project, archive_body, unarchive_body, ProjectView, MemberView}
use expense.Projects
use expense.Projects.Members.{PlaceMemberInput, check_place, place_body, place_member}
use expense.Projects.Placing.{view_of, may_assign, assign, next_version, place_member-Assigned}
use expense.Projects.Outcomes.{CanGo, IsGone, delete_only_empty, touched, archive-unarchive}
use expense.Staff.Kept.{Unlocked, Unused}
use expense.Staff.Requests.{StaffRequest, StaffReachable, after_staff}
use expense.Staff.Held.{HasHeldRoles, reachable-HasHeldRoles}
use expense.Staff.Names.{HasNames, reachable-HasNames}
use expense.Staff.Placements.{IsPlacedOnce, reachable-IsPlacedOnce}
use expense.Staff.Locked.{Stands, reachable-Stands}

abbrev project : Project
project = record {
  id = 5;
  organization_id = 3;
  name = codes "house";
  created_by = 7;
  created_at = 1;
  updated_at = 1;
  deleted_at = none;
  archived_at = none;
}

abbrev role : ℕ → Text → Bool → Role
role id name system = record {
  id = id;
  project_id = 5;
  name = name;
  is_system = system;
  created_by = 7;
  created_at = 1;
  updated_at = 1;
  deleted_at = none;
}

abbrev viewers : Role
viewers = role 6 (codes "viewer") true

abbrev clerks : Role
clerks = role 8 (codes "clerk") false

abbrev cooks : Role
cooks = role 9 (codes "cook") false

abbrev clerk : ProjectMember
clerk = record {
  organization_id = 3;
  project_id = 5;
  user_id = 7;
  role_id = 8;
  created_at = 1;
  updated_at = 1;
  version = 1;
}

abbrev office : Db
office = record start {
  transactions = [];
  documents = [];
  projects = project ∷ [];
  members = clerk ∷ [];
  roles = viewers ∷ clerks ∷ cooks ∷ [];
  permissions = [];
  next_id = 100;
}

-- The clerk becomes a cook, by whoever saw the first version.
abbrev move : PlaceMemberInput
move = record { user_id = 7; role_id = 9; expected_version = some 1 }

abbrev late_move : PlaceMemberInput
late_move = record move { expected_version = none }

abbrev moved_view : MemberView
moved_view = record {
  user_id = 7;
  role_id = 9;
  role_name = codes "cook";
  is_system = false;
  created_at = 1;
  version = 2;
}

runs :
    ((place_member creator 5 move quiet (world office)).0 ≡ ok moved_view)
    × ((place_member creator 5 late_move quiet (world office)).0 ≡ err project_member_changed)
unfolding place_member check_place find_project get_project is_member_active_strict get_role
    place_body lock_project_for_delete upsert_project_member emit create_outbox_event exec_tx
    finish_tx run ask
runs = (refl, refl)

place_member-Assigned_example :
    let before = view_of office.members in
    let after = view_of (place_member creator 5 move quiet (world office)).1.db.members in
    (may_assign (some 1) (before 5 7) ≡ true)
    × ((q x : ℕ) → after q x ≡ assign 5 7 9 before q x)
    × (◌≡◌ {A = ℕ} 2 (next_version (before 5 7)))
place_member-Assigned_example =
    place_member-Assigned creator 5 move quiet (world office) moved_view runs.0

abbrev closed_view : ProjectView
closed_view = record {
  id = 5;
  name = codes "house";
  created_by = 7;
  created_at = 1;
  archived = true;
}

abbrev archived : World
archived = (Projects.archive creator 5 quiet (world office)).1

there :
    ((Projects.archive creator 5 quiet (world office)).0 ≡ ok closed_view)
    × ((Projects.unarchive creator 5 quiet archived).0
        ≡ ok (record closed_view { archived = false }))
unfolding Projects.archive archive_body archive_project Projects.unarchive unarchive_body
    unarchive_project emit create_outbox_event exec_tx finish_tx run
there = (refl, refl)

archive-unarchive_example :
    (t : ℕ) × ((Projects.unarchive creator 5 quiet archived).1.db.projects
      ≡ touched creator 5 t office.projects)
archive-unarchive_example =
    archive-unarchive creator 5 quiet quiet (world office) closed_view
      (record closed_view { archived = false }) (All.also (λ _. refl) All.none) there.0 there.1

deleted :
    ((Projects.delete creator 5 quiet (world office)).0 ≡ ok tt)
    × ((Roles.delete creator 5 9 quiet (world office)).0 ≡ ok tt)
unfolding Projects.delete Projects.delete_body lock_project_for_delete count_project_transactions
    count_project_documents soft_delete_project Roles.delete check_unlocked find_role get_role
    delete_body count_role_usage soft_delete_role emit create_outbox_event exec_tx finish_tx run
deleted = (refl, refl)

delete_only_empty_example :
    CanGo creator 5 office × IsGone creator 5 (Projects.delete creator 5 quiet (world office)).1.db
delete_only_empty_example = delete_only_empty creator 5 quiet (world office) deleted.0

delete_only-Unused_example :
    (Unlocked 9 5 office × Unused 9 office)
    × (find (is_role 9 5) (Roles.delete creator 5 9 quiet (world office)).1.db.roles ≡ none)
delete_only-Unused_example = delete_only-Unused creator 5 9 quiet (world office) deleted.1

-- Two requests, one of which takes a role away.
abbrev after_move : Db
after_move = after_staff creator (StaffRequest.place 5 move) quiet (world office)

abbrev after_both : Db
after_both = after_staff creator (StaffRequest.delete_role 5 8) quiet (world after_move)

both_reachable : StaffReachable office after_both
both_reachable =
    StaffReachable.after (world after_move)
      (StaffReachable.after (world office) StaffReachable.here creator (StaffRequest.place 5 move)
        quiet)
      creator (StaffRequest.delete_role 5 8) quiet

reachable-HasHeldRoles_example : HasHeldRoles after_both
reachable-HasHeldRoles_example = reachable-HasHeldRoles both_reachable (All.also refl All.none)

reachable-IsPlacedOnce_example : IsPlacedOnce after_both
reachable-IsPlacedOnce_example =
    reachable-IsPlacedOnce both_reachable (Pairwise.also All.none Pairwise.none)

reachable-HasNames_example : HasNames after_both
reachable-HasNames_example = reachable-HasNames both_reachable (record {
  names =
      Pairwise.also (All.also (refl, refl) (All.also (refl, refl) All.none))
        (Pairwise.also (All.also (refl, refl) All.none) (Pairwise.also All.none Pairwise.none));
  ids = All.also (omega arith) (All.also (omega arith) (All.also (omega arith) All.none));
})

reachable-Stands_example : Stands viewers after_both
reachable-Stands_example = reachable-Stands viewers refl both_reachable (record {
  found = refl;
  alone =
      All.also (λ _. refl)
        (All.also (λ e. absurd (omega (arith, e)))
          (All.also (λ e. absurd (omega (arith, e))) All.none));
  old = omega arith;
})

normalized : normalize_role_name (codes " night clerk ") ≡ ok (codes "night clerk")
unfolding normalize_role_name trim_space trim_left
normalized = refl

normalize_role_name-idempotent_example :
    (trim_space (codes "night clerk") ≡ codes "night clerk")
    × (text_eq (codes "night clerk") [] ≡ false)
    × (ltb 100 (length (codes "night clerk")) ≡ false)
    × (normalize_role_name (codes "night clerk") ≡ ok (codes "night clerk"))
normalize_role_name-idempotent_example =
    normalize_role_name-idempotent (codes " night clerk ") (codes "night clerk") normalized
