-- ===== src/Projects/Placing.antt =====
-- Placing a member, against a map from projects and users to a role and a version.
use expense.Base.{
  ℕ, ◌+◌, ◌≡◌, ◌∙◌, refl, inl, inr, arith, Bool, true, false, not, ◌==◌, ◌&&◌, Option, none, some,
  List, [], ◌∷◌, ◌++◌, find, ap, subst, any, ◌||◌, ap₂, find-passes, find-append_none, find-append,
  find-update, update, is_some, if◌then◌else◌, Option-cases, Bool-cases,
}
use expense.Store.Rows.{Project, Role, ProjectMember}
use expense.Store.Hoare.{Yields, Triple, bind, weaken, run_rule, map_error_rule, tx_rule, pure_rule}
use expense.Store.Keeps.{Keeps-run, Keeps-raise_if}
use expense.Store.Frames.{of_keeps, successful}
use expense.Store.Outbox.{emit, create_outbox_event}
use expense.Authz.{Actor}
use expense.Approval.Submit.{or_not_found}
use expense.Projects.{MemberView}
use expense.Projects.Members.{
  PlaceMemberInput, placement_of, or_member_changed, place_body, place_member, placed_view,
}
use expense.Staff.MemberChanges.{check_place-Keeps}
use expense.Store.World.{Db, Env, World, ok, project_archived}
use expense.Store.Projects.{
  Placement, is_placed, member_row, moved, is_version, lock_project_for_delete,
  upsert_project_member,
}

-- Who is placed where: the role and the version of a placement.
abbrev pub View : Type 0
View = (project_id user_id : ℕ) → Option (ℕ × ℕ)

abbrev pub held : Option ProjectMember → Option (ℕ × ℕ)
held none = none
held (some m) = some (m.role_id, m.version)

abbrev pub view_of : List ProjectMember → View
view_of members project user = held (find (is_placed project user) members)

abbrev pub next_version : Option (ℕ × ℕ) → ℕ
next_version none = 1
next_version (some (role, version)) = version + 1

-- A placement in the map.
abbrev pub assign : (project_id user_id role_id : ℕ) → View → View
assign project user role v q x =
    if q == project && x == user then some (role, next_version (v project user)) else v q x

-- The version that a change must name.
abbrev pub may_assign : Option ℕ → Option (ℕ × ℕ) → Bool
may_assign expected none = true
may_assign none (some (role, version)) = false
may_assign (some e) (some (role, version)) = version == e

is_version-may_assign :
    (expected : Option ℕ) (role version : ℕ)
    → is_version expected version ≡ true
    → may_assign expected (some (role, version)) ≡ true
is_version-may_assign none role version e = e
is_version-may_assign (some x) role version e = e

-- Whether a placement succeeds, and what the map is then.
pub record Assigned (p : Placement) (before after : List ProjectMember) (m : ProjectMember)
    : Type 0 where
  pub allowed : may_assign p.expected_version (view_of before p.project_id p.user_id) ≡ true
  pub now_held :
      (q x : ℕ) → view_of after q x ≡ assign p.project_id p.user_id p.role_id (view_of before) q x
  pub returned : view_of after p.project_id p.user_id ≡ some (m.role_id, m.version)

-- Two searches by the same key.
same_search :
    (ms : List ProjectMember) (project user q x : ℕ)
    → (q == project && x == user) ≡ true
    → find (is_placed q x) ms ≡ find (is_placed project user) ms
same_search ms project user q x t =
    let here : q ≡ project = ground (arith, t) in
    let there : x ≡ user = ground (arith, t) in ap₂ (λ a b. find (is_placed a b) ms) here there

module _ (p : Placement) (now : ℕ) (ms : List ProjectMember) where
  added :
      find (is_placed p.project_id p.user_id) ms ≡ none
      → Assigned p ms (ms ++ member_row now p ∷ []) (member_row now p)
  added e = record {
    allowed = rw e refl;
    now_held = λ q x. elim (Bool-cases (q == p.project_id && x == p.user_id)) [
      | inl t ↦
          let none_there = same_search ms p.project_id p.user_id q x t ∙ e in
          rw (t, e)
            (ground
              (arith, t, find-append_none (is_placed q x) ms (member_row now p ∷ []) none_there))
      | inr t ↦ rw t (elim (Option-cases (find (is_placed q x) ms)) [
        | inl f ↦
            ground (arith, t, f, find-append_none (is_placed q x) ms (member_row now p ∷ []) f)
        | inr (m, f) ↦ ground (arith, f, find-append (is_placed q x) ms (member_row now p ∷ []) m f)
      ])
    ];
    returned =
        ground
          (arith, find-append_none (is_placed p.project_id p.user_id) ms (member_row now p ∷ []) e);
  }

  changed_row :
      (m : ProjectMember)
      → find (is_placed p.project_id p.user_id) ms ≡ some m
      → is_version p.expected_version m.version ≡ true
      → Assigned p ms
          (update (is_placed p.project_id p.user_id) (moved now p.role_id) ms)
          (moved now p.role_id m)
  changed_row m e v =
      let search = λ (q x : ℕ).
        find-update (is_placed q x) (is_placed p.project_id p.user_id) (moved now p.role_id) ms
          (λ y. refl) in
      let hit = find-passes (is_placed p.project_id p.user_id) ms m e in
      record {
        allowed = rw e (is_version-may_assign p.expected_version m.role_id m.version v);
        now_held = λ q x. elim (Bool-cases (q == p.project_id && x == p.user_id)) [
          | inl t ↦
              let there = same_search ms p.project_id p.user_id q x t ∙ e in
              rw (t, e) (ground (arith, t, hit, search q x, there))
          | inr t ↦ rw t (elim (Option-cases (find (is_placed q x) ms)) [
            | inl f ↦ ground (arith, f, search q x)
            | inr (y, f) ↦ ground (arith, t, f, search q x, find-passes (is_placed q x) ms y f)
          ])
        ];
        returned = ground (arith, hit, e, search p.project_id p.user_id);
      }

upsert-Assigned :
    (p : Placement) (now : ℕ) (d : Db)
    → Yields (λ m e. Assigned p d.members e.members m) (upsert_project_member p now d)
unfolding upsert_project_member
upsert-Assigned p now d =
    elim (Bool-cases (
      not (any (λ (x : Project). x.id == p.project_id) d.projects)
      || not (any (λ (r : Role). r.id == p.role_id) d.roles))) [
        | inl e ↦ rw (e, upsert_project_member) tt
        | inr e ↦ elim (Option-cases (find (is_placed p.project_id p.user_id) d.members)) [
          | inl f ↦ rw (e, f, upsert_project_member) (added p now d.members f)
          | inr (m, f) ↦ elim (Bool-cases (is_version p.expected_version m.version)) [
            | inl g ↦ rw (e, f, g, upsert_project_member) (changed_row p now d.members m f g)
            | inr g ↦ rw (e, f, g, upsert_project_member) tt
          ]
        ]
      ]

module _ (actor : Actor) (project : ℕ) (input : PlaceMemberInput) (ms : List ProjectMember) where
  -- What the caller is told is what the table holds.
  abbrev Told : MemberView → Db → Type 0
  Told v d =
      (m : ProjectMember) × Assigned (placement_of actor project input) ms d.members m
      × (v.version ≡ m.version)

  place_body-Assigned :
      Triple
        (λ d. d.members ≡ ms)
        (place_body actor project input)
        (λ m d. Assigned (placement_of actor project input) ms d.members m)
  unfolding place_body lock_project_for_delete emit create_outbox_event
  place_body-Assigned =
      bind (of_keeps (Keeps-run (lock_project_for_delete project actor.org_id) (λ now d h. h)))
        (λ locked.
          bind (of_keeps (Keeps-raise_if (is_some locked.archived_at) project_archived)) (λ _.
            bind
              (map_error_rule or_member_changed _ (
                run_rule (upsert_project_member (placement_of actor project input)) (λ now d h.
                  subst
                    (λ before.
                      Yields (λ m e. Assigned (placement_of actor project input) before e.members m)
                        (upsert_project_member (placement_of actor project input) now d))
                    h (upsert-Assigned (placement_of actor project input) now d))))
              (λ m.
                bind
                  (run_rule {Q = λ _ d. Assigned (placement_of actor project input) ms d.members m}
                    (create_outbox_event _ _ _ _) (λ now d h. h))
                  (λ _. weaken (pure_rule m) (λ x d h. rw h.1 h.0)))))

  place_member-Told : Triple (λ d. d.members ≡ ms) (place_member actor project input) Told
  unfolding place_member
  place_member-Told = bind (of_keeps (check_place-Keeps actor project input)) (λ role.
      bind (map_error_rule or_not_found _ (tx_rule place_body-Assigned)) (λ m.
        weaken (pure_rule (placed_view role m))
          (λ v d h. (m, h.0, ap (λ (x : MemberView). x.version) h.1))))

-- A placement that succeeds implements the map: where the user was placed already, the caller named
-- the version that the placement had; afterwards the user has the role in the project, in version
-- 1 or the next one, which is the version that the caller is told; and every other placement is
-- as before.
pub place_member-Assigned :
    (actor : Actor) (project : ℕ) (input : PlaceMemberInput) (env : Env) (w : World)
    (v : MemberView)
    → (place_member actor project input env w).0 ≡ ok v
    → let before = view_of w.db.members in
      let after = view_of (place_member actor project input env w).1.db.members in
      (may_assign input.expected_version (before project input.user_id) ≡ true)
      × ((q x : ℕ) → after q x ≡ assign project input.user_id input.role_id before q x)
      × (v.version ≡ next_version (before project input.user_id))
place_member-Assigned actor project input env w v e =
    let told = successful env w v (place_member-Told actor project input w.db.members) refl e in
    (
      told.1.allowed,
      told.1.now_held,
      told.2 ∙ ground (arith, told.1.now_held project input.user_id, told.1.returned),
    )
