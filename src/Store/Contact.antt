-- ===== src/Store/Contact.antt =====
-- Consent and control: opting out, a customer's reply, and a human takeover and its end
-- (`recordCustomerOptOut`, `recordCustomerResponse`, `startHumanTakeover` and `resumeAssistant`).
pub mod OptOut
pub mod Isolation
pub mod Gaps
pub mod Takeover
use closer_v.Prelude.{
  ℕ, Bool, true, false, not, ◌&&◌, ◌||◌, ◌==◌, Option, none, some, List, [], ◌∷◌, ◌++◌, find?,
  select, any, update_first, update_where, length, if◌then◌else◌, String,
}
use closer_v.Domain.Values.{
  Uuid, Key, Instant, OpportunityStatus, RecoveryState, RecoveryActionStatus, is_closed, is_open,
  is_automatic,
}
use closer_v.Domain.Opportunity.{OpportunityRecord, RecoveryActionRecord}
use closer_v.Domain.Model.{
  AuthenticatedIdentity, ConversationRecord, ConversationMode, FollowUpJobRecord, FollowUpJobStatus,
  CustomerResponseInput, CustomerResponseResult,
}
use closer_v.Domain.Transitions.{is_do_not_contact}
use closer_v.Recovery.{is_fresh}
use closer_v.Store.State.{
  State, Handoff, ResponseEntry, OptedOut, Action, Failure, api_error, resource_not_found,
  provider_message_conflict, opportunity_contact_stopped, invalid_opportunity_context,
  no_active_handoff, pure, throw, gets, or_throw, ◌>>=◌, ◌>>◌, throw_if, modify,
}
use closer_v.Store.Lookup.{
  same_text, same_id, is_some, is_customer, is_conversation, is_opportunity, talks_in, is_handoff,
  is_opted_out, is_pending, is_human_active,
}

abbrev pub cancel_action : Instant → RecoveryActionRecord → RecoveryActionRecord
cancel_action now a = record a {
  status = RecoveryActionStatus.cancelled;
  cancelled_at = some now;
  updated_at = now;
}

-- The writes that cancel a follow-up, with the reason that is kept.
abbrev pub cancel_follow_up : String → Instant → FollowUpJobRecord → FollowUpJobRecord
cancel_follow_up reason now f = record f {
  status = FollowUpJobStatus.cancelled;
  stop_reason = some reason;
  cancelled_at = some now;
  lease_owner = none;
  lease_expires_at = none;
}

-- The opportunities that opting out stops.
abbrev pub stops : Uuid → Uuid → OpportunityRecord → Bool
stops tenant customer p =
    p.tenant_id == tenant && p.customer_id == customer && not (is_closed p.status)

abbrev pub stop : Instant → OpportunityRecord → OpportunityRecord
stop now p = record p {
  status = OpportunityStatus.do_not_contact;
  recovery_state = RecoveryState.stopped;
  next_action_at = none;
  updated_at = now;
}

abbrev pub acts_for : Uuid → Uuid → (RecoveryActionStatus → Bool) → RecoveryActionRecord → Bool
acts_for tenant opportunity test a =
    a.tenant_id == tenant && a.opportunity_id == opportunity && test a.status

-- The loop over the stopped opportunities, which cancels the open actions of each.
unfoldable pub cancel_actions :
    Uuid → Instant → List OpportunityRecord → List RecoveryActionRecord → List RecoveryActionRecord
cancel_actions tenant now [] actions = actions
cancel_actions tenant now (p ∷ ps) actions =
    cancel_actions tenant now ps
      (update_where (acts_for tenant p.id is_open) (cancel_action now) actions)

-- `conversationIds.has(candidate.conversationId)`, and the follow-up is pending.
abbrev pub follows_any : Uuid → List OpportunityRecord → FollowUpJobRecord → Bool
follows_any tenant stopped f =
    f.tenant_id == tenant
    && any (λ p. same_id p.conversation_id (some f.conversation_id)) stopped
    && is_pending f.status

abbrev pub add_opted_out : Uuid → Uuid → List OptedOut → List OptedOut
add_opted_out tenant customer set =
    if is_opted_out tenant customer set
    then set
    else set ++ record { tenant_id = tenant; customer_id = customer } ∷ []

-- What opting out writes.
unfoldable pub apply_opt_out : Uuid → Uuid → Instant → State → State
unfolding cancel_actions
apply_opt_out tenant customer now s =
    let stopped = select (stops tenant customer) s.opportunities in
    record s {
      opted_out_customers = add_opted_out tenant customer s.opted_out_customers;
      opportunities = update_where (stops tenant customer) (stop now) s.opportunities;
      recovery_actions = cancel_actions tenant now stopped s.recovery_actions;
      follow_ups =
          update_where (follows_any tenant stopped) (cancel_follow_up "OPT_OUT" now) s.follow_ups;
    }

pub record OptOutResult : Type 0 where
  pub customer_id : Uuid
  pub stopped_opportunities : ℕ
  pub cancelled_follow_ups : ℕ

unfoldable pub record_customer_opt_out : Uuid → Uuid → Instant → Action OptOutResult
unfolding apply_opt_out
record_customer_opt_out tenant customer now = do
  or_throw (← gets (λ s. find? (is_customer tenant customer) s.customers))
      (api_error 404 resource_not_found)
  stopped ← gets (λ s. select (stops tenant customer) s.opportunities)
  cancelled ← gets (λ s. select (follows_any tenant stopped) s.follow_ups)
  modify (apply_opt_out tenant customer now)
  pure (record {
    customer_id = customer;
    stopped_opportunities = length stopped;
    cancelled_follow_ups = length cancelled;
  })

abbrev pub is_response : Uuid → Key → ResponseEntry → Bool
is_response tenant message e = e.tenant_id == tenant && same_text e.provider_message_id message

-- What a reply writes to its opportunity.
abbrev pub is_human_required : RecoveryState → Bool
is_human_required RecoveryState.human_required = true
is_human_required _ = false

abbrev pub engage : Instant → OpportunityRecord → OpportunityRecord
engage now p = record p {
  status = if is_fresh p.status then OpportunityStatus.engaged else p.status;
  last_customer_activity_at = some now;
  next_action_at = some now;
  recovery_state =
      if is_human_required p.recovery_state then p.recovery_state else RecoveryState.not_at_risk;
  updated_at = now;
}

abbrev pub hear : Instant → ConversationRecord → ConversationRecord
hear now c = record c { last_customer_message_at = some now; updated_at = now }

abbrev pub follows : Uuid → Option Uuid → FollowUpJobRecord → Bool
follows tenant conversation f =
    f.tenant_id == tenant && same_id (some f.conversation_id) conversation && is_pending f.status

abbrev pub answered : Instant → FollowUpJobRecord → FollowUpJobRecord
answered now f = record f {
  status = FollowUpJobStatus.cancelled;
  stop_reason = some "CUSTOMER_REPLIED";
  last_response_at = some now;
  cancelled_at = some now;
  lease_owner = none;
  lease_expires_at = none;
}

abbrev pub is_waiting_customer : RecoveryActionStatus → Bool
is_waiting_customer RecoveryActionStatus.waiting_customer = true
is_waiting_customer _ = false

-- `action.completedAt ??= now`
abbrev pub first_time : Option Instant → Instant → Option Instant
first_time none now = some now
first_time (some t) now = some t

abbrev pub settle_action : Instant → RecoveryActionRecord → RecoveryActionRecord
settle_action now a =
    if is_waiting_customer a.status
    then record a {
      status = RecoveryActionStatus.completed;
      completed_at = first_time a.completed_at now;
      updated_at = now;
    }
    else cancel_action now a

unfoldable pub apply_response :
    Uuid
    → OpportunityRecord
    → ConversationRecord
    → CustomerResponseInput
    → Uuid
    → Instant
    → State
    → State
apply_response tenant p c input message now s = record s {
  conversations = update_first (is_conversation tenant c.id) (hear now) s.conversations;
  opportunities = update_first (is_opportunity tenant p.id) (engage now) s.opportunities;
  follow_ups = update_where (follows tenant p.conversation_id) (answered now) s.follow_ups;
  recovery_actions =
      update_where (acts_for tenant p.id is_automatic) (settle_action now) s.recovery_actions;
  customer_responses =
      s.customer_responses
      ++ record {
        tenant_id = tenant;
        provider_message_id = input.provider_message_id;
        message_id = message;
        opportunity_id = p.id;
        conversation_id = c.id;
        body = input.body;
      }
        ∷ [];
}

replay_response : Uuid → CustomerResponseInput → ResponseEntry → Action CustomerResponseResult
replay_response opportunity input e = do
  throw_if (not (e.opportunity_id == opportunity) || not (same_text e.body input.body))
      (api_error 409 provider_message_conflict)
  pure (record {
    message_id = e.message_id;
    opportunity_id = e.opportunity_id;
    conversation_id = e.conversation_id;
    provider_replay = true;
  })

-- The rest of the method, for the opportunity and the conversation that were found.
accept_response :
    Uuid
    → OpportunityRecord
    → Uuid
    → CustomerResponseInput
    → Uuid
    → Instant
    → Action CustomerResponseResult
unfolding apply_response
accept_response tenant p conversation input message now = do
  throw_if (is_do_not_contact p.status) (api_error 409 opportunity_contact_stopped)
  found ← gets (λ s. find? (is_conversation tenant conversation) s.conversations)
  c ← or_throw found (api_error 422 invalid_opportunity_context)
  modify (apply_response tenant p c input message now)
  pure (record {
    message_id = message;
    opportunity_id = p.id;
    conversation_id = c.id;
    provider_replay = false;
  })

unfoldable pub record_customer_response :
    Uuid → Uuid → CustomerResponseInput → Uuid → Instant → Action CustomerResponseResult
unfolding replay_response accept_response
record_customer_response tenant opportunity input message now = do
  existing ← gets (λ s. find? (is_response tenant input.provider_message_id) s.customer_responses)
  found ← gets (λ s. find? (is_opportunity tenant opportunity) s.opportunities)
  elim existing [
    | some e ↦ replay_response opportunity input e
    | none ↦ do
      p ← or_throw found (api_error 404 resource_not_found)
      conversation ← or_throw p.conversation_id (api_error 404 resource_not_found)
      accept_response tenant p conversation input message now
  ]

-- `humanHandoffs.set(key, ...)`
unfoldable pub put_handoff : Handoff → List Handoff → List Handoff
put_handoff h hs =
    if any (is_handoff h.tenant_id h.conversation_id) hs
    then update_first (is_handoff h.tenant_id h.conversation_id) (λ _. h) hs
    else hs ++ h ∷ []

-- `existing?.resolvedAt === null ? existing.id : randomUUID()`
abbrev pub handoff_id : Option Handoff → Uuid → Uuid
handoff_id none fresh = fresh
handoff_id (some h) fresh = elim h.resolved_at [ none ↦ h.id | some t ↦ fresh ]

abbrev pub hand_over : ConversationMode → Instant → ConversationRecord → ConversationRecord
hand_over mode now c = record c { mode = mode; updated_at = now }

abbrev pub call_human : Uuid → Instant → OpportunityRecord → OpportunityRecord
call_human user now p = record p {
  recovery_state = RecoveryState.human_required;
  assigned_human_id = some user;
  next_action_at = some now;
  updated_at = now;
}

-- What a takeover writes to the opportunity of the conversation and to its actions.
unfoldable pub call_human_for : Uuid → Uuid → Instant → Option OpportunityRecord → State → State
call_human_for tenant user now none s = s
call_human_for tenant user now (some p) s = if is_closed p.status then s else record s {
  opportunities = update_first (is_opportunity tenant p.id) (call_human user now) s.opportunities;
  recovery_actions =
      update_where (acts_for tenant p.id is_automatic) (cancel_action now) s.recovery_actions;
}

unfoldable pub apply_takeover : Uuid → Uuid → Uuid → Uuid → Instant → State → State
unfolding put_handoff call_human_for
apply_takeover tenant conversation user fresh now s =
    let existing = find? (is_handoff tenant conversation) s.human_handoffs in
    call_human_for tenant user now (find? (talks_in tenant conversation) s.opportunities)
      (record s {
        human_handoffs =
            put_handoff
              (record {
                tenant_id = tenant;
                conversation_id = conversation;
                id = handoff_id existing fresh;
                resolved_at = none;
              })
              s.human_handoffs;
        conversations =
            update_first (is_conversation tenant conversation)
              (hand_over ConversationMode.human_active now) s.conversations;
        follow_ups =
            update_where (follows tenant (some conversation))
              (cancel_follow_up "HUMAN_TAKEOVER" now) s.follow_ups;
      })

-- Returns the id of the handoff.
unfoldable pub start_human_takeover :
    Uuid → Uuid → AuthenticatedIdentity → Uuid → Instant → Action Uuid
unfolding apply_takeover
start_human_takeover tenant conversation actor fresh now = do
  or_throw (← gets (λ s. find? (is_conversation tenant conversation) s.conversations))
      (api_error 404 resource_not_found)
  existing ← gets (λ s. find? (is_handoff tenant conversation) s.human_handoffs)
  modify (apply_takeover tenant conversation actor.user_id fresh now)
  pure (handoff_id existing fresh)

abbrev pub release_human : Instant → OpportunityRecord → OpportunityRecord
release_human now p = record p {
  recovery_state = RecoveryState.at_risk;
  assigned_human_id = none;
  next_action_at = some now;
  updated_at = now;
}

abbrev pub waits_for_human : RecoveryActionStatus → Bool
waits_for_human RecoveryActionStatus.human_required = true
waits_for_human _ = false

unfoldable pub release_human_for : Uuid → Instant → Option OpportunityRecord → State → State
release_human_for tenant now none s = s
release_human_for tenant now (some p) s =
    if is_human_required p.recovery_state
    then record s {
      opportunities = update_first (is_opportunity tenant p.id) (release_human now) s.opportunities;
      recovery_actions =
          update_where (acts_for tenant p.id waits_for_human) (cancel_action now)
            s.recovery_actions;
    }
    else s

abbrev pub resolve : Instant → Handoff → Handoff
resolve now h = record h { resolved_at = some now }

-- `!handoff || handoff.resolvedAt !== null`
abbrev pub is_resolved : Option Handoff → Bool
is_resolved none = true
is_resolved (some h) = is_some h.resolved_at

unfoldable pub apply_resume : Uuid → Uuid → Instant → State → State
unfolding release_human_for
apply_resume tenant conversation now s =
    release_human_for tenant now (find? (talks_in tenant conversation) s.opportunities) (record s {
      human_handoffs = update_first (is_handoff tenant conversation) (resolve now) s.human_handoffs;
      conversations =
          update_first (is_conversation tenant conversation)
            (hand_over ConversationMode.ai_active now) s.conversations;
    })

unfoldable pub resume_assistant : Uuid → Uuid → Instant → Action (Unit {0})
unfolding apply_resume
resume_assistant tenant conversation now = do
  found ← gets (λ s. find? (is_conversation tenant conversation) s.conversations)
  c ← or_throw found (api_error 404 resource_not_found)
  handoff ← gets (λ s. find? (is_handoff tenant conversation) s.human_handoffs)
  throw_if (is_resolved handoff || not (is_human_active c.mode)) (api_error 409 no_active_handoff)
  modify (apply_resume tenant conversation now)
