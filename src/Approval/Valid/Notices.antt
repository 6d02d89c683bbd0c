-- ===== src/Approval/Valid/Notices.antt =====
-- The notifications and audit events leave the chains as they are.
use expense.Base.{ℕ, arith, ℤ, Bool, true, false, Option, none, some, All-map, if◌then◌else◌, Text}
use expense.Store.Rows.{DecisionWord, Approval, Topic, Payload, NotificationPayload}
use expense.Store.World.{Db, pure}
use expense.Store.Hoare.{
  Triple, bind, weaken, run_rule, raise_if_rule, raise_rule, pure_rule, ask_rule,
}
use expense.Store.Approvals.{ApprovalForDecide}
use expense.Store.Outbox.{emit, create_outbox_event}
use expense.Authz.{Actor}
use expense.Approval.Submit.{or_empty}
use expense.Approval.Notify.{
  emit_step_activated, emit_decision_received, notification_event, display_amount,
}
use expense.Approval.Decide.{announce, DecideInput}
use expense.Approval.Chain.{Chains, IsValid}

-- The outbox is not part of what the chains say.
pub emit_rule :
    {hole exempt : Option ℕ} (kind : Text) (aggregate : ℕ) (topic : Topic) (payload : Payload)
    → Triple (Chains hole exempt) (emit kind aggregate topic payload) (λ _ d. Chains hole exempt d)
unfolding emit create_outbox_event
emit_rule kind aggregate topic payload =
    run_rule (create_outbox_event kind aggregate topic payload) (λ now d c. record {
      transaction_ids = c.transaction_ids;
      approval_ids = c.approval_ids;
      steps = c.steps;
      rule_steps = c.rule_steps;
      approval_fresh = All-map d.approvals (λ a h. omega arith) c.approval_fresh;
      decision_fresh = All-map d.decisions (λ a h. omega arith) c.decision_fresh;
      rows = c.rows;
      once = c.once;
      in_order = c.in_order;
      made = c.made;
      can_move = c.can_move;
    })

notification_event_rule :
    {P : Db → Type 0} (recipient : ℕ) (email : Text) (payload : NotificationPayload)
    → Triple P (notification_event recipient email payload) (λ _ d. P d)
unfolding notification_event
notification_event_rule recipient email payload =
    bind (ask_rule _)
      (λ ok_event. bind (raise_if_rule _ _) (λ _. weaken (pure_rule _) (λ _ d h. h.0.0)))

display_amount_rule : {P : Db → Type 0} (o : Option Text) → Triple P (display_amount o) (λ _ d. P d)
display_amount_rule none = raise_rule _
display_amount_rule (some t) = weaken (pure_rule t) (λ _ d h. h.0)

pub step_activated_rule :
    {hole exempt : Option ℕ} (tx approver : ℕ) (name email description : Text) (total : ℤ)
    (currency : Text) (step : ℤ)
    → Triple
        (Chains hole exempt)
        (emit_step_activated tx approver name email description total currency step)
        (λ _ d. Chains hole exempt d)
unfolding emit_step_activated
step_activated_rule tx approver name email description total currency step =
    bind (display_amount_rule _)
      (λ amount. bind (notification_event_rule _ _ _) (λ event. emit_rule _ _ _ _))

decision_received_rule :
    {hole exempt : Option ℕ} (tx creator : ℕ) (email name description : Text) (total : ℤ)
    (currency : Text) (decision : DecisionWord) (decider : Text)
    → Triple
        (Chains hole exempt)
        (emit_decision_received tx creator email name description total currency decision decider)
        (λ _ d. Chains hole exempt d)
unfolding emit_decision_received
decision_received_rule tx creator email name description total currency decision decider =
    bind (display_amount_rule _)
      (λ amount. bind (notification_event_rule _ _ _) (λ event. emit_rule _ _ _ _))

next_notice_rule :
    (x : ApprovalForDecide) (next : Bool × Approval) (go : Bool)
    → Triple IsValid
        (if go
          then emit_step_activated x.transaction.id next.1.approver_id next.1.approver_name
              next.1.approver_email
              (or_empty x.transaction.description)
              x.transaction.total_amount
              x.transaction.currency
              next.1.step
          else pure tt)
        (λ _ d. IsValid d)
next_notice_rule x next true = step_activated_rule _ _ _ _ _ _ _ _
next_notice_rule x next false = weaken (pure_rule tt) (λ _ d h. h.0)

pub announce_rule :
    (actor : Actor) (x : ApprovalForDecide) (input : DecideInput) (next : Bool × Approval)
    → Triple IsValid (announce actor x input next) (λ _ d. IsValid d)
unfolding announce
announce_rule actor x input next =
    bind (decision_received_rule _ _ _ _ _ _ _ _ _)
      (λ _. bind (next_notice_rule x next next.0) (λ _. emit_rule _ _ _ _))
