-- ===== src/Examples/Client.antt =====
-- A small database of the browser application: a lost lead with a confirmed appointment that is paid,
-- a verified event with its evidence, and a follow-up that waits.
use closer_v.Prelude.{true, false, none, some, [], ◌∷◌}
use closer_v.Domain.Values.{Uuid}
use closer_v.Client.Kinds.{
  ActivityType, AppointmentStatus, ConsentSource, ConversationChannel, ConversationMode,
  ConversationStage, ConversationState, FollowUpChannel, FollowUpOwner, FollowUpResult,
  FollowUpScenario, FollowUpStatus, LeadPriority, LeadSource, LeadStatus, MessagePurpose,
  OpportunityLostReason, PaymentKind, PaymentReferenceType, PaymentStatus, RevenueAttributionKind,
  RevenueAttributionStatus, RevenueStage, WorkflowType,
}
use closer_v.Client.Entities.{
  TenantEntity, Activity, Appointment, BusinessKnowledge, BusinessSettings, ConsentRecord, Contact,
  Conversation, Lead, Payment, QuoteItem, RevenueEvent, ScheduledFollowUp,
}
use closer_v.Client.Database.{Database}
use closer_v.Client.Attribution.{VerifyRevenueAttributionInput}
use closer_v.Client.FollowUps.Schedule.{ScheduleFollowUpInput}
use closer_v.Client.Timeline.{RecordActivityInput}
use closer_v.Prelude.Int.{pos}

abbrev pub entity : Uuid → TenantEntity
entity id = record { id = id; business_id = 1; created_at = 0; updated_at = 0 }

abbrev pub lead : Lead
lead = record {
  base = entity 2;
  contact_id = 3;
  conversation_id = 4;
  workflow_type = WorkflowType.appointment_service;
  status = LeadStatus.active;
  service_id = none;
  next_action_id = none;
  closed_at = none;
  lost_reason = none;
  source = LeadSource.email;
  source_reference_id = none;
  priority = LeadPriority.normal;
  objections = [];
}

abbrev lost_lead : Lead
lost_lead = record lead {
  status = LeadStatus.lost;
  closed_at = some 100;
  lost_reason = some OpportunityLostReason.quote_expired;
}

abbrev pub talk : Conversation
talk = record {
  base = entity 4;
  contact_id = 3;
  channel = ConversationChannel.email;
  owner_team_member_id = none;
  state = ConversationState.qualifying;
  inferred_stage = ConversationStage.discovery;
  mode = ConversationMode.ai_active;
  automation_enabled = true;
  last_customer_message_at = some 10;
  last_business_response_at = none;
  current_intent = none;
  missing_information = [];
  next_action_id = none;
  handoff_id = none;
}

abbrev pub visit : Appointment
visit = record {
  base = entity 5;
  contact_id = 3;
  lead_id = 2;
  service_id = 9;
  staff_id = 8;
  start_at = 1000;
  end_at = 2000;
  status = AppointmentStatus.completed;
  total_cents = 9000;
  deposit_required_cents = 2000;
  confirmed_at = some 50;
  completed_at = some 2000;
  operation_key = "visit";
}

abbrev pub paid : Payment
paid = record {
  base = entity 6;
  contact_id = 3;
  reference_type = PaymentReferenceType.appointment;
  reference_id = 5;
  kind = PaymentKind.balance;
  status = PaymentStatus.collected;
  amount_cents = 9000;
  idempotency_key = "paid";
  original_payment_id = none;
  collected_at = 2100;
}

abbrev activity : Activity
activity = record {
  base = entity 7;
  contact_id = some 3;
  conversation_id = some 4;
  kind_ = ActivityType.message_sent;
  summary = "Offered a time.";
  metadata = [];
  occurred_at = 20;
  operation_key = some "offer";
}

abbrev pub revenue : RevenueEvent
revenue = record {
  base = entity 10;
  contact_id = 3;
  lead_id = 2;
  conversation_id = 4;
  lead_source = LeadSource.email;
  reference_type = PaymentReferenceType.appointment;
  reference_id = 5;
  stage = RevenueStage.collected;
  amount_cents = 9000;
  causation_id = 6;
  correlation_id = 6;
  attribution_status = RevenueAttributionStatus.verified;
  attribution_kind = some RevenueAttributionKind.recovered;
  contributing_activity_ids = 7 ∷ [];
  attribution_operation_key = some "claim";
  attributed_at = some 3000;
  attributed_by_team_member_id = none;
  occurred_at = 2100;
}

abbrev pub settings : BusinessSettings
settings = record {
  base = entity 11;
  tax_enabled = true;
  tax_rate_basis_points = 1700;
  default_deposit_basis_points = 2500;
  payment_methods = [];
  follow_up_cadence_hours = (FollowUpScenario.quote_response, 24 ∷ 72 ∷ []) ∷ [];
  reactivation_inactivity_days = 1;
}

abbrev consent : ConsentRecord
consent = record {
  base = entity 12;
  contact_id = 3;
  marketing_allowed = true;
  operational_allowed = true;
  opted_out = false;
  source = ConsentSource.manual;
  changed_at = 0;
}

abbrev contact : Contact
contact = record {
  base = entity 3;
  display_name = "Dana";
  phone = "1";
  email = none;
  address = none;
  notes = [];
}

abbrev pub waiting : ScheduledFollowUp
waiting = record {
  base = entity 13;
  contact_id = 3;
  conversation_id = 4;
  scenario = FollowUpScenario.quote_response;
  status = FollowUpStatus.scheduled;
  purpose = MessagePurpose.operational;
  due_at = 500;
  idempotency_key = "4:QUOTE_RESPONSE:state";
  triggering_message_id = none;
  reason = "";
  sequence_key = "QUOTE_RESPONSE";
  sequence_step = 0;
  channel = FollowUpChannel.email;
  attempt_count = 0;
  attempts = [];
  next_attempt_at = some 500;
  last_attempt_at = none;
  last_response_at = none;
  stop_reason = none;
  manual_override = false;
  owner = FollowUpOwner.assistant;
  owner_team_member_id = none;
  draft_message = none;
  result = FollowUpResult.pending;
}

abbrev pub database : Database
database = record {
  businesses = [];
  business_settings = settings ∷ [];
  business_knowledge = [];
  team_members = [];
  contacts = contact ∷ [];
  leads = lead ∷ [];
  conversations = talk ∷ [];
  messages = [];
  next_actions = [];
  activities = activity ∷ [];
  services = [];
  appointments = visit ∷ [];
  availability_rules = [];
  quotes = [];
  jobs = [];
  payments = paid ∷ [];
  consent_records = consent ∷ [];
  human_handoffs = [];
  revenue_events = revenue ∷ [];
  customer_memory = [];
  scheduled_follow_ups = waiting ∷ [];
}

abbrev pub lost_database : Database
lost_database = record database { leads = lost_lead ∷ [] }

abbrev pub knowledge : BusinessKnowledge
knowledge = record {
  base = entity 14;
  business_name = "";
  service_descriptions = [];
  fixed_prices_cents = [];
  price_ranges_cents = [];
  pricing_rules = [];
  service_durations_minutes = [];
  preparation_instructions = [];
  opening_hours = "";
  address = "";
  service_area = "";
  service_area_locations = [];
  appointment_rules = [];
  cancellation_policy = "";
  deposit_policy = "";
  accepted_payment_methods = [];
  faq = [];
  tone_of_voice = "";
  allowed_automatic_answers = [];
  answers_requiring_human_review = [];
  prohibited_autonomous_actions = [];
  required_qualification_fields = [];
  service_qualification_fields = [];
  minimum_assistant_confidence = 70;
}

abbrev pub attribution_input : VerifyRevenueAttributionInput
attribution_input = record {
  business_id = 1;
  revenue_event_id = 10;
  kind = RevenueAttributionKind.generated;
  contributing_activity_ids = 7 ∷ 7 ∷ [];
  operation_key = "other claim";
  verified_by_team_member_id = none;
}

abbrev pub follow_up_input : ScheduleFollowUpInput
follow_up_input = record {
  business_id = 1;
  conversation_id = 4;
  scenario = FollowUpScenario.deposit_request;
  due_at = 600;
  purpose = none;
  triggering_message_id = none;
  reason = "";
  draft_message = some " Hi ";
}

abbrev pub activity_input : RecordActivityInput
activity_input = record {
  business_id = 1;
  contact_id = some 3;
  conversation_id = some 4;
  kind_ = ActivityType.message_sent;
  summary = "";
  metadata = none;
  operation_key = some "call";
}

abbrev pub item : QuoteItem
item = record { id = 1; description = ""; quantity = pos 2; unit_price_cents = pos 5000 }
