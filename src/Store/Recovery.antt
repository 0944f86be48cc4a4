-- ===== src/Store/Recovery.antt =====
-- The recovery of an opportunity in the store (`evaluateOpportunityRecovery`,
-- `approveRecoveryAction`, `defaultObservation`).
pub mod Approval
use Prim.Native.String.{◌++◌ as append_text}
use closer_v.Prelude.{
  ℕ, ◌+◌, Bool, true, false, not, ◌&&◌, ◌||◌, ◌==◌, ltb, Option, none, some, List, [], ◌∷◌, ◌++◌,
  find?, select, head?, sort_by, sum_by, update_first, if◌then◌else◌, String,
}
use closer_v.Domain.Values.{
  Uuid, Key, Instant, OpportunityStatus, RecoveryState, HvacOpportunityType, RecoveryActionStatus,
  RequestedBy, DeliveryState, is_closed, is_open,
}
use closer_v.Domain.Opportunity.{
  OpportunityRecord, OpportunityObservation, RecoveryActionRecord, RecoveryDecision,
  RecoveryDecisionRecord, RecoveryEvaluationRecord,
}
use closer_v.Domain.Model.{AuthenticatedIdentity, ConversationRecord, FollowUpJobRecord}
use closer_v.Recovery.{
  is_qualified, is_lost, evaluate, recovery_action_status, recovery_decision_execution_state,
  recovery_state_after_decision, recovery_action_valid_until, is_ready,
}
use closer_v.Scoring.{is_do_not_contact}
use closer_v.Store.State.{
  State, Action, api_error, internal_error, resource_not_found, recovery_action_missing,
  recovery_decision_missing, recovery_action_not_approvable, recovery_action_expired, pure, throw,
  gets, or_throw, ◌>>=◌, ◌>>◌, throw_if, modify,
}
use closer_v.Store.Lookup.{
  same_text, same_id, is_some, or_else, has_passed, is_customer, is_conversation, is_opportunity,
  is_opted_out, is_human_active,
}
use closer_v.Store.Contact.{cancel_action, acts_for, is_human_required}

abbrev pub is_other : HvacOpportunityType → Bool
is_other HvacOpportunityType.other = true
is_other _ = false

-- `lostReason === 'CUSTOMER_DECLINED'`
abbrev pub was_declined : Option String → Bool
was_declined none = false
was_declined (some reason) = same_text reason "CUSTOMER_DECLINED"

abbrev pub customer_message_at : Option ConversationRecord → Option Instant
customer_message_at none = none
customer_message_at (some c) = c.last_customer_message_at

abbrev pub business_response_at : Option ConversationRecord → Option Instant
business_response_at none = none
business_response_at (some c) = c.last_business_response_at

abbrev pub is_handed_over : Option ConversationRecord → Bool
is_handed_over none = false
is_handed_over (some c) = is_human_active c.mode

-- `opportunity.conversationId ? this.conversations.find(...) : null`
abbrev pub conversation_of : Uuid → OpportunityRecord → State → Option ConversationRecord
conversation_of tenant p s = elim p.conversation_id [
  | none ↦ none
  | some c ↦ find? (is_conversation tenant c) s.conversations
]

-- `defaultObservation` with the overrides that `evaluateOpportunityRecovery` gives it.
unfoldable pub observe : Uuid → OpportunityRecord → Instant → State → OpportunityObservation
observe tenant p now s =
    let conversation = conversation_of tenant p s in
    let opted_out = is_opted_out tenant p.customer_id s.opted_out_customers in
    record {
      now = now;
      source = p.source;
      status = p.status;
      recovery_state = p.recovery_state;
      opportunity_type = p.opportunity_type;
      estimated_value_cents = p.estimated_value_cents;
      average_ticket_cents = none;
      last_customer_activity_at =
          or_else (customer_message_at conversation) p.last_customer_activity_at;
      last_business_activity_at =
          or_else (business_response_at conversation) p.last_business_activity_at;
      has_customer_reply = is_some (customer_message_at conversation);
      has_explicit_service_intent = not (is_other p.opportunity_type);
      has_booking_request = is_qualified p.status;
      has_estimate = is_some p.estimate_id;
      estimate_viewed_count = 0;
      estimate_created_at = none;
      has_explicit_rejection = is_lost p.status && was_declined p.lost_reason;
      has_active_handoff = is_handed_over conversation;
      is_human_required = is_human_required p.recovery_state;
      opted_out = opted_out;
      operational_communication_allowed =
          is_some (find? (is_customer tenant p.customer_id) s.customers) && not opted_out;
      within_contact_window = true;
      follow_up_attempts =
          sum_by (λ f. f.attempt_count)
            (select
              (λ (f : FollowUpJobRecord).
                f.tenant_id == tenant && same_id (some f.conversation_id) p.conversation_id)
              s.follow_ups);
      has_other_active_opportunity = false;
    }

abbrev pub is_decision_key : Uuid → Key → RecoveryDecisionRecord → Bool
is_decision_key tenant key d = d.tenant_id == tenant && same_text d.idempotency_key key

abbrev pub is_decision : Uuid → Uuid → RecoveryDecisionRecord → Bool
is_decision tenant id d = d.tenant_id == tenant && d.id == id

abbrev pub of_decision : Uuid → Uuid → RecoveryActionRecord → Bool
of_decision tenant decision a = a.tenant_id == tenant && a.decision_id == decision

abbrev pub newer : RecoveryActionRecord → RecoveryActionRecord → Bool
newer a b = ltb b.created_at a.created_at

-- The newest open action of the opportunity.
unfoldable pub current_action : Uuid → Uuid → State → Option RecoveryActionRecord
current_action tenant opportunity s =
    head? (sort_by newer (select (acts_for tenant opportunity is_open) s.recovery_actions))

abbrev pub decide : RecoveryDecision → OpportunityRecord → Instant → OpportunityRecord
decide d p now = record p {
  scores = d.scores;
  recovery_state = recovery_state_after_decision p d;
  next_action_at = d.next_best_action.due_at;
  updated_at = now;
}

abbrev pub decision_record :
    Uuid → RecoveryDecision → OpportunityRecord → Uuid → RecoveryDecisionRecord
decision_record tenant d p fresh = record {
  decision = d;
  id = fresh;
  tenant_id = tenant;
  executed_at = none;
  execution_state = recovery_decision_execution_state p d;
}

abbrev pub action_record :
    Uuid → RecoveryDecision → OpportunityRecord → Key → Uuid → Uuid → Instant → RecoveryActionRecord
action_record tenant d p key decision fresh now = record {
  id = fresh;
  tenant_id = tenant;
  opportunity_id = p.id;
  decision_id = decision;
  action_kind = d.next_best_action.kind;
  channel = d.next_best_action.channel;
  status = recovery_action_status p d;
  requires_approval = d.next_best_action.requires_approval;
  requested_by = RequestedBy.policy;
  idempotency_key = append_text key ":action";
  valid_until = recovery_action_valid_until d;
  approved_by_user_id = none;
  approved_at = none;
  started_at = none;
  completed_at = none;
  cancelled_at = none;
  last_error = none;
  delivery_state = DeliveryState.live_disabled;
  created_at = now;
  updated_at = now;
}

-- The new decision and its action, for the opportunity that was found. The two fresh ids are the
-- decision's and the action's.
unfoldable pub decide_anew :
    Uuid → OpportunityRecord → Key → Uuid → Uuid → Instant → Action RecoveryEvaluationRecord
decide_anew tenant p key decision fresh now = do
  o ← gets (observe tenant p now)
  let d = evaluate p o key
  let dr = decision_record tenant d p decision
  let a = action_record tenant d p key decision fresh now
  modify (λ s. record s {
    opportunities = update_first (is_opportunity tenant p.id) (λ q. decide d q now) s.opportunities;
    recovery_decisions = s.recovery_decisions ++ dr ∷ [];
    recovery_actions = s.recovery_actions ++ a ∷ [];
  })
  pure (record { decision = dr; action = a })

-- An open action that has not expired is returned with its decision.
unfoldable pub keep_current : Uuid → RecoveryActionRecord → Action RecoveryEvaluationRecord
keep_current tenant a = do
  found ← gets (λ s. find? (is_decision tenant a.decision_id) s.recovery_decisions)
  d ← or_throw found (internal_error recovery_decision_missing)
  pure (record { decision = d; action = a })

-- The write `currentAction.status = 'CANCELLED'`, at the action of that id.
unfoldable pub expire : Uuid → RecoveryActionRecord → Instant → Action (Unit {0})
expire tenant a now = modify (λ s. record s {
  recovery_actions =
      update_first (λ b. b.tenant_id == tenant && b.id == a.id) (cancel_action now)
        s.recovery_actions;
})

unfoldable pub evaluate_opportunity_recovery :
    Uuid → Uuid → Key → Uuid → Uuid → Instant → Action RecoveryEvaluationRecord
evaluate_opportunity_recovery tenant opportunity key decision fresh now = do
  replay ← gets (λ s. find? (is_decision_key tenant key) s.recovery_decisions)
  current ← gets (current_action tenant opportunity)
  found ← gets (λ s. find? (is_opportunity tenant opportunity) s.opportunities)
  elim replay [
    | some d ↦ do
      action ← gets (λ s. find? (of_decision tenant d.id) s.recovery_actions)
      a ← or_throw action (internal_error recovery_action_missing)
      pure (record { decision = d; action = a })
    | none ↦ do
      p ← or_throw found (api_error 404 resource_not_found)
      elim current [
        | none ↦ decide_anew tenant p key decision fresh now
        | some a ↦ elim (has_passed a.valid_until now) [
          | true ↦ do expire tenant a now; decide_anew tenant p key decision fresh now
          | false ↦ keep_current tenant a
        ]
      ]
  ]

abbrev pub is_action : Uuid → Uuid → Uuid → RecoveryActionRecord → Bool
is_action tenant opportunity id a =
    a.tenant_id == tenant && a.opportunity_id == opportunity && a.id == id

abbrev pub awaits_approval : RecoveryActionStatus → Bool
awaits_approval RecoveryActionStatus.waiting_approval = true
awaits_approval _ = false

abbrev pub approve : Uuid → Instant → RecoveryActionRecord → RecoveryActionRecord
approve user now a = record a {
  status = RecoveryActionStatus.ready;
  approved_by_user_id = some user;
  approved_at = some now;
  updated_at = now;
}

-- `if (opportunity && !['WON', 'DO_NOT_CONTACT'].includes(...))`, at the opportunity that is found.
abbrev pub activate : Instant → OpportunityRecord → OpportunityRecord
activate now p = if is_closed p.status then p else record p {
  recovery_state = RecoveryState.recovery_active;
  next_action_at = some now;
  updated_at = now;
}

-- The checks and writes for the action that was found.
unfoldable pub approve_found :
    Uuid
    → Uuid
    → RecoveryActionRecord
    → AuthenticatedIdentity
    → Instant
    → Action RecoveryActionRecord
unfolding expire
approve_found tenant opportunity a actor now = elim (is_ready a.status && is_some a.approved_at) [
  | true ↦ pure a
  | false ↦ do
    throw_if (not (awaits_approval a.status)) (api_error 409 recovery_action_not_approvable)
    elim (has_passed a.valid_until now) [
      | true ↦ do expire tenant a now; throw (api_error 409 recovery_action_expired)
      | false ↦ do
        modify (λ s. record s {
          recovery_actions =
              update_first (is_action tenant opportunity a.id) (approve actor.user_id now)
                s.recovery_actions;
          opportunities =
              update_first (is_opportunity tenant opportunity) (activate now) s.opportunities;
        })
        pure (approve actor.user_id now a)
    ]
]

unfoldable pub approve_recovery_action :
    Uuid → Uuid → Uuid → AuthenticatedIdentity → Instant → Action RecoveryActionRecord
unfolding approve_found
approve_recovery_action tenant opportunity action actor now = do
  found ← gets (λ s. find? (is_action tenant opportunity action) s.recovery_actions)
  a ← or_throw found (api_error 404 resource_not_found)
  approve_found tenant opportunity a actor now
