-- ===== src/Examples/Data.antt =====
-- The test data of the examples: one customer, with a conversation, an opportunity and a booking.
use closer_v.Prelude.{true, false, none, some, [], ◌∷◌, ◌*◌}
use closer_v.Domain.Values.{
  hour, OpportunityStatus, RecoveryState, HvacOpportunityType, OpportunitySource,
  OpportunityAutonomyLevel, RecoveryActionStatus, NextBestActionKind, RequestedBy, DeliveryState,
}
use closer_v.Domain.Opportunity.{
  ExplainableScore, OpportunityRecord, OpportunityObservation, RecoveryActionRecord,
}
use closer_v.Domain.Model.{
  CustomerRecord, ConversationRecord, ConversationMode, LeadRecord, LeadStatus, WorkflowType,
  BookingCreationInput, PaymentCreationInput, PaymentRecord, PaymentKind, PaymentReferenceType,
  RevenueEntryInput, RevenueLedgerStage, FollowUpJobRecord, FollowUpJobStatus,
  FollowUpCreationInput, AuthenticatedIdentity, InMemoryInvitation, InvitedRole, OrganizationRole,
}
use closer_v.Store.State.{State}

abbrev no_score : ExplainableScore
no_score = record { value = 0; reason_codes = []; explanation = ""; version = "" }

abbrev pub opportunity :
    OpportunityStatus → RecoveryState → OpportunityAutonomyLevel → OpportunityRecord
opportunity status recovery autonomy = record {
  id = 5;
  tenant_id = 1;
  customer_id = 2;
  lead_id = some 3;
  conversation_id = some 4;
  source = OpportunitySource.website_form;
  opportunity_type = HvacOpportunityType.standard_repair;
  estimated_value_cents = some 90000;
  currency = "USD";
  scores = record {
    intent = no_score;
    revenue = no_score;
    recovery = no_score;
    urgency = no_score;
  };
  status = status;
  recovery_state = recovery;
  autonomy_level = autonomy;
  assigned_human_id = none;
  last_customer_activity_at = none;
  last_business_activity_at = none;
  next_action_at = none;
  booking_id = none;
  estimate_id = none;
  job_id = none;
  won_at = none;
  lost_at = none;
  lost_reason = none;
  revenue_attributed_cents = 0;
  attribution_type = none;
  attribution_reason = none;
  created_at = 0;
  updated_at = 0;
}

abbrev pub quiet_observation : OpportunityObservation
quiet_observation = record {
  now = 100 * hour;
  source = OpportunitySource.website_form;
  status = OpportunityStatus.engaged;
  recovery_state = RecoveryState.at_risk;
  opportunity_type = HvacOpportunityType.standard_repair;
  estimated_value_cents = some 90000;
  average_ticket_cents = none;
  last_customer_activity_at = some (99 * hour);
  last_business_activity_at = some (80 * hour);
  has_customer_reply = true;
  has_explicit_service_intent = true;
  has_booking_request = false;
  has_estimate = false;
  estimate_viewed_count = 0;
  estimate_created_at = none;
  has_explicit_rejection = false;
  has_active_handoff = false;
  is_human_required = false;
  opted_out = false;
  operational_communication_allowed = true;
  within_contact_window = true;
  follow_up_attempts = 0;
  has_other_active_opportunity = false;
}

abbrev pub opted_out_observation : OpportunityObservation
opted_out_observation = record (quiet_observation) { opted_out = true }

abbrev pub taken_over_observation : OpportunityObservation
taken_over_observation = record (quiet_observation) { has_active_handoff = true }

abbrev customer : CustomerRecord
customer = record {
  id = 2;
  tenant_id = 1;
  display_name = "Dana";
  phone = "+15550100";
  email = none;
  created_at = 0;
}

abbrev lead : LeadRecord
lead = record {
  id = 3;
  tenant_id = 1;
  customer_id = 2;
  conversation_id = 4;
  source = "website";
  workflow_type = WorkflowType.appointment_service;
  service_id = some 6;
  status = LeadStatus.active;
  marketing_allowed = true;
  created_at = none;
  updated_at = none;
}

abbrev pub conversation : ConversationRecord
conversation = record {
  id = 4;
  tenant_id = 1;
  customer_id = 2;
  lead_id = 3;
  channel = "sms";
  mode = ConversationMode.ai_active;
  stage = "NEW";
  last_customer_message_at = none;
  last_business_response_at = none;
  created_at = 0;
  updated_at = 0;
}

abbrev pub empty_store : State
empty_store = record {
  memberships = [];
  customers = [];
  leads = [];
  conversations = [];
  bookings = [];
  payments = [];
  revenue_entries = [];
  follow_ups = [];
  webhook_endpoints = [];
  webhook_events = [];
  follow_up_attempts = [];
  human_handoffs = [];
  invitations = [];
  opportunities = [];
  recovery_decisions = [];
  recovery_actions = [];
  opted_out_customers = [];
  customer_responses = [];
}

abbrev pub store : State
store = record (empty_store) {
  customers = customer ∷ [];
  leads = lead ∷ [];
  conversations = conversation ∷ [];
  opportunities =
      opportunity OpportunityStatus.engaged RecoveryState.at_risk OpportunityAutonomyLevel.suggest
      ∷ [];
}

abbrev pub booking_input : BookingCreationInput
booking_input = record {
  idempotency_key = "booking-1";
  customer_id = 2;
  lead_id = 3;
  service_id = 6;
  staff_id = 7;
  start_at = "2026-03-02T10:00:00.000Z";
  end_at = "2026-03-02T12:00:00.000Z";
  total_cents = 90000;
  deposit_required_cents = 20000;
}

abbrev pub deposit_input : PaymentCreationInput
deposit_input = record {
  idempotency_key = "deposit-1";
  customer_id = 2;
  lead_id = 3;
  conversation_id = 4;
  reference_type = PaymentReferenceType.appointment;
  reference_id = 8;
  kind = PaymentKind.deposit;
  amount_cents = 20000;
  original_payment_id = none;
}

abbrev pub refund_input : PaymentCreationInput
refund_input = record (deposit_input) {
  idempotency_key = "refund-1";
  kind = PaymentKind.refund;
  amount_cents = 15000;
  original_payment_id = some 9;
}

abbrev pub deposit : PaymentRecord
deposit = record { input = deposit_input; id = 9; tenant_id = 1; created_at = 0 }

abbrev pub paid_store : State
paid_store = record (store) { payments = deposit ∷ [] }

abbrev pub collected_input : RevenueEntryInput
collected_input = record {
  customer_id = 2;
  lead_id = 3;
  conversation_id = some 4;
  payment_id = some 9;
  stage = RevenueLedgerStage.collected;
  amount_cents = 20000;
  causation_key = "payment:9:collected";
  opportunity_id = none;
  event_type = none;
  attribution_type = none;
  attribution_reason = none;
}

abbrev pub ledger_store : State
ledger_store = record (paid_store) {
  revenue_entries =
      record { input = collected_input; id = 33; tenant_id = 1; occurred_at = 0 } ∷ [];
}

abbrev pub follow_up : FollowUpJobRecord
follow_up = record {
  id = 10;
  tenant_id = 1;
  conversation_id = 4;
  customer_id = 2;
  channel = "sms";
  reason = "no reply";
  status = FollowUpJobStatus.scheduled;
  due_at = "2026-03-02T10:00Z";
  attempt_count = 0;
  max_attempts = 5;
  lease_owner = none;
  lease_expires_at = none;
  retry_at = none;
  last_error = none;
  stop_reason = none;
  manual_override = false;
  last_response_at = none;
  completed_at = none;
  cancelled_at = none;
  idempotency_key = "follow-up-1";
  draft_message = none;
  created_at = 0;
}

abbrev pub queued_store : State
queued_store = record (store) {
  follow_ups = record (follow_up) { id = 11; due_at = "2026-03-02T10:00:30.000Z" } ∷ follow_up ∷ [];
}

abbrev pub leased_store : State
leased_store = record (store) {
  follow_ups =
      record (follow_up) {
        status = FollowUpJobStatus.leased;
        lease_owner = some "worker-1";
        lease_expires_at = some "2026-03-02T10:20:00.000Z";
        attempt_count = 1;
      }
      ∷ [];
}

abbrev pub follow_up_input : FollowUpCreationInput
follow_up_input = record {
  conversation_id = 4;
  customer_id = 2;
  channel = "sms";
  reason = "no reply";
  due_at = "2026-03-02T11:00:00Z";
  idempotency_key = "follow-up-2";
  draft_message = none;
}

abbrev pub waiting_action : RecoveryActionRecord
waiting_action = record {
  id = 12;
  tenant_id = 1;
  opportunity_id = 5;
  decision_id = 13;
  action_kind = NextBestActionKind.send_sms;
  channel = none;
  status = RecoveryActionStatus.waiting_approval;
  requires_approval = true;
  requested_by = RequestedBy.policy;
  idempotency_key = "decision-1";
  valid_until = some 1000;
  approved_by_user_id = none;
  approved_at = none;
  started_at = none;
  completed_at = none;
  cancelled_at = none;
  last_error = none;
  delivery_state = DeliveryState.live_disabled;
  created_at = 0;
  updated_at = 0;
}

abbrev pub waiting_store : State
waiting_store = record (store) { recovery_actions = waiting_action ∷ [] }

abbrev pub actor : AuthenticatedIdentity
actor = record { user_id = 20; email = some (b'd' ∷ b'@' ∷ b'x' ∷ []); token_id = none }

abbrev invitation : InMemoryInvitation
invitation = record {
  invitation = record {
    id = 21;
    tenant_id = 1;
    email = b'D' ∷ b'@' ∷ b'x' ∷ [];
    role = InvitedRole.member;
    expires_at = 1000;
    accepted_at = none;
    revoked_at = none;
    created_at = 0;
    replayed = false;
  };
  token_hash = "hash-1";
  idempotency_key = "invitation-1";
}

-- The actor owns the tenant, and has an invitation as a member.
abbrev pub invited_store : State
invited_store = record (store) {
  invitations = invitation ∷ [];
  memberships =
      record {
        user_id = 20;
        membership = record {
          tenant_id = 1;
          tenant_name = "Northwind";
          role = OrganizationRole.owner;
          active = true;
        };
      }
      ∷ [];
}
