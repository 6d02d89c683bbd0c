-- ===== src/Store/Access.antt =====
-- The statements of internal/repository/roles.sql.go that authorization reads.
use expense.Base.{
  ℕ, Bool, ◌&&◌, List, [], ◌∷◌, ◌++◌, Text, text_eq, filter, any, is_none, if◌then◌else◌, ◌==◌, map,
}
use expense.Store.Rows.{ProjectMember}
use expense.Store.World.{Db, ok, Statement}

-- The join with `roles`: the member's role is there and not deleted.
abbrev pub has_live_role : Db → ProjectMember → Bool
has_live_role d m = any (λ r. r.id == m.role_id && is_none r.deleted_at) d.roles

abbrev pub permissions_of : Db → ProjectMember → List Text
permissions_of d m = map (λ p. p.action) (filter (λ p. p.role_id == m.role_id) d.permissions)

-- SELECT DISTINCT.
pub distinct : List Text → List Text
distinct [] = []
distinct (t ∷ ts) = let rest = distinct ts in if any (text_eq t) ts then rest else t ∷ rest

actions_in : Db → List ProjectMember → List Text
actions_in d [] = []
actions_in d (m ∷ ms) =
    let rest = actions_in d ms in if has_live_role d m then permissions_of d m ++ rest else rest

unfoldable pub get_user_project_actions : (project_id user_id : ℕ) → Statement (List Text)
unfolding distinct actions_in
get_user_project_actions project user now d = (
  ok (
      distinct
        (actions_in d (filter (λ m. m.project_id == project && m.user_id == user) d.members))),
  d,
)

placements : Db → Text → List ProjectMember → List ℕ
placements d action [] = []
placements d action (m ∷ ms) =
    let rest = placements d action ms in
    if has_live_role d m && any (text_eq action) (permissions_of d m)
    then m.project_id ∷ rest
    else rest

unfoldable pub list_active_placements_with_action :
    (organization_id user_id : ℕ) (action : Text) → Statement (List ℕ)
unfolding placements
list_active_placements_with_action org user action now d = (
  ok (placements d action (filter (λ m. m.organization_id == org && m.user_id == user) d.members)),
  d,
)
