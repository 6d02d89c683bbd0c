-- ===== src/Approval/Requests.antt =====
-- The requests that move a transaction through its approvals or change the rules, in any order and
-- from any actors.
-- A database transaction is one step. The checks of `Submit` come before its transaction, and
-- other requests may commit in between, so that the transaction of `Submit` is a step of its own.
use expense.Base.{ℕ, none}
use expense.Store.World.{Db, World, Env}
use expense.Authz.{Actor}
use expense.Approval.Submit.{submit, submit_tx}
use expense.Approval.Decide.{decide, DecideInput}
use expense.Approval.Chain.{IsValid}
use expense.Approval.RuleChanges.{RuleRequest, after_rules, after_rules-Keeps}
use expense.Approval.Valid.Rules.{IsValid-RulesKept}
use expense.Approval.Valid.Submit.{submit-Keeps, submit_tx-Keeps}
use expense.Approval.Valid.Decide.{decide-Keeps}

pub data Request : Type 0 where
  whole_submit : Actor → (tx_id : ℕ) → Request
  only_submit_tx : Actor → (tx_id : ℕ) → Request
  one_decide : Actor → (approval_id : ℕ) → DecideInput → Request
  on_rules : RuleRequest → Request

-- The database after a request, whether it succeeds or fails.
unfoldable pub after : Request → Env → World → Db
unfolding submit submit_tx decide after_rules
after (whole_submit actor tx) env w = (submit actor tx env w).1.db
after (only_submit_tx actor tx) env w = (submit_tx actor tx env w).1.db
after (one_decide actor id input) env w = (decide actor id input env w).1.db
after (on_rules request) env w = after_rules request env w

-- The databases that requests lead to, each in an environment of its own.
pub data Reachable (first : Db) : Db → Type 0 where
  at_first : Reachable first first
  then_served :
      {d : Db}
      → Reachable first d
      → (request : Request) (env : Env) (tick : ℕ)
      → Reachable first (after request env (record { db = d; tick = tick; tx_time = none }))

-- A request leaves the chains of a database valid that were valid before, whether it succeeds or
-- fails, whatever the environment answers and whichever statements fail.
pub after-IsValid :
    (request : Request) (env : Env) (w : World) → IsValid w.db → IsValid (after request env w)
unfolding after
after-IsValid (whole_submit actor tx) env w h = (submit-Keeps actor tx).holds env w h
after-IsValid (only_submit_tx actor tx) env w h = (submit_tx-Keeps actor tx).holds env w h
after-IsValid (one_decide actor id input) env w h = (decide-Keeps actor id input).holds env w h
after-IsValid (on_rules request) env w h = after_rules-Keeps IsValid-RulesKept request env w h

-- Every database reached from one whose chains are valid has valid chains.
pub Reachable-IsValid : {first d : Db} → IsValid first → Reachable first d → IsValid d
Reachable-IsValid h Reachable.at_first = h
Reachable-IsValid h (Reachable.then_served {d} before request env tick) =
    after-IsValid request env (record { db = d; tick = tick; tx_time = none })
      (Reachable-IsValid h before)
