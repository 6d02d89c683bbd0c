-- ===== src/Approval/Valid/Decide.antt =====
-- `Decide` keeps the chains valid: its statements one by one.
use expense.Base.{ℕ, not, ◌&&◌}
use expense.Store.Rows.{is_approved, is_rejected}
use expense.Store.Keeps.{Keeps, Keeps-bind, Keeps-raise_if, Keeps-exec_tx}
use expense.Store.World.{invalid_transition, submit_validation, Db}
use expense.Store.Hoare.{Triple, bind, weaken, map_error_rule, pure_rule}
use expense.Authz.{Actor}
use expense.Approval.Decide.{check_decision, is_blank, decide, decide_body, settle, DecideInput}
use expense.Approval.Chain.{IsValid}
use expense.Approval.Valid.Turn.{Found-rule, Turn-rule, decision_rule}
use expense.Approval.Valid.MoveOn.{move_on_rule}
use expense.Approval.Valid.Notices.{announce_rule}

pub decide_body_rule :
    (actor : Actor) (id : ℕ) (input : DecideInput)
    → Triple IsValid (decide_body actor id input) (λ _ d. IsValid d)
unfolding decide_body settle
decide_body_rule actor id input = bind (map_error_rule _ _ (Found-rule id)) (λ x.
    bind (Turn-rule actor id x) (λ _. bind (decision_rule actor id x input) (λ _.
      bind (move_on_rule x input) (λ next.
        bind (announce_rule actor x input next) (λ _. weaken (pure_rule _) (λ _ d h. h.0))))))

check_decision-Keeps : {P : Db → Type 0} (input : DecideInput) → Keeps P (check_decision input)
unfolding check_decision
check_decision-Keeps input =
    Keeps-bind
      (Keeps-raise_if (not (is_approved input.decision) && not (is_rejected input.decision))
        invalid_transition)
      (λ _. Keeps-raise_if (is_rejected input.decision && is_blank input.notes) submit_validation)

pub decide-Keeps :
    (actor : Actor) (id : ℕ) (input : DecideInput) → Keeps IsValid (decide actor id input)
unfolding decide
decide-Keeps actor id input =
    Keeps-bind (check_decision-Keeps input) (λ _. Keeps-exec_tx (decide_body_rule actor id input))
