-- ===== src/Store/Journey.antt =====
-- New journeys and opportunities (`createJourney`, `createOpportunity`, `initialOpportunity`,
-- `normalizeOpportunitySource`).
use closer_v.Prelude.{false, Option, none, some, [], ◌∷◌, ◌++◌, find?, if◌then◌else◌, String}
use closer_v.Domain.Values.{
  Uuid, Instant, Cents, HvacOpportunityType, OpportunitySource, OpportunityAutonomyLevel,
  OpportunityStatus, RecoveryState,
}
use closer_v.Domain.Opportunity.{ExplainableScore, OpportunityRecord}
use closer_v.Domain.Model.{
  LeadRecord, LeadStatus, ConversationRecord, ConversationMode, WorkflowType, JourneyCreationInput,
  OpportunityCreationInput,
}
use closer_v.Store.State.{
  Action, api_error, resource_not_found, pure, gets, or_throw, ◌>>=◌, ◌>>◌, modify,
}
use closer_v.Store.Lookup.{same_text, is_customer}

abbrev pub unscored : ExplainableScore
unscored = record {
  value = 0;
  reason_codes = [];
  explanation = "Not scored yet";
  version = "unscored";
}

pub record NewOpportunity : Type 0 where
  pub id : Uuid
  pub tenant_id : Uuid
  pub customer_id : Uuid
  pub lead_id : Uuid
  pub conversation_id : Uuid
  pub source : OpportunitySource
  pub opportunity_type : HvacOpportunityType
  pub estimated_value_cents : Option Cents
  pub autonomy_level : OpportunityAutonomyLevel
  pub now : Instant

unfoldable pub initial_opportunity : NewOpportunity → OpportunityRecord
initial_opportunity i = record {
  id = i.id;
  tenant_id = i.tenant_id;
  customer_id = i.customer_id;
  lead_id = some i.lead_id;
  conversation_id = some i.conversation_id;
  source = i.source;
  opportunity_type = i.opportunity_type;
  estimated_value_cents = i.estimated_value_cents;
  currency = "USD";
  scores = record {
    intent = unscored;
    revenue = unscored;
    recovery = unscored;
    urgency = unscored;
  };
  status = OpportunityStatus.new;
  recovery_state = RecoveryState.at_risk;
  autonomy_level = i.autonomy_level;
  assigned_human_id = none;
  last_customer_activity_at = none;
  last_business_activity_at = none;
  next_action_at = some i.now;
  booking_id = none;
  estimate_id = none;
  job_id = none;
  won_at = none;
  lost_at = none;
  lost_reason = none;
  revenue_attributed_cents = 0;
  attribution_type = none;
  attribution_reason = none;
  created_at = i.now;
  updated_at = i.now;
}

unfoldable pub normalize_opportunity_source : String → OpportunitySource
normalize_opportunity_source source =
    if same_text source "MISSED_CALL"
    then OpportunitySource.missed_call
    else if same_text source "PHONE"
    then OpportunitySource.phone
    else if same_text source "WEBSITE_FORM"
    then OpportunitySource.website_form
    else if same_text source "WHATSAPP"
    then OpportunitySource.whatsapp
    else if same_text source "INSTAGRAM"
    then OpportunitySource.instagram
    else if same_text source "EMAIL"
    then OpportunitySource.email
    else if same_text source "IMPORT"
    then OpportunitySource.imported
    else if same_text source "MANUAL"
    then OpportunitySource.manual
    else OpportunitySource.other

-- The text of a source, as the lead keeps it.
abbrev pub source_text : OpportunitySource → String
source_text OpportunitySource.missed_call = "MISSED_CALL"
source_text OpportunitySource.phone = "PHONE"
source_text OpportunitySource.website_form = "WEBSITE_FORM"
source_text OpportunitySource.whatsapp = "WHATSAPP"
source_text OpportunitySource.instagram = "INSTAGRAM"
source_text OpportunitySource.email = "EMAIL"
source_text OpportunitySource.imported = "IMPORT"
source_text OpportunitySource.manual = "MANUAL"
source_text OpportunitySource.other = "OTHER"

-- The ids that `randomUUID()` gives to a new journey.
pub record FreshIds : Type 0 where
  pub customer_id : Uuid
  pub lead_id : Uuid
  pub conversation_id : Uuid
  pub opportunity_id : Uuid

abbrev pub new_lead :
    Uuid → Uuid → FreshIds → String → WorkflowType → Option Uuid → Instant → LeadRecord
new_lead tenant customer ids source workflow service now = record {
  id = ids.lead_id;
  tenant_id = tenant;
  customer_id = customer;
  conversation_id = ids.conversation_id;
  source = source;
  workflow_type = workflow;
  service_id = service;
  status = LeadStatus.new;
  marketing_allowed = false;
  created_at = some now;
  updated_at = some now;
}

abbrev pub new_conversation : Uuid → Uuid → FreshIds → String → Instant → ConversationRecord
new_conversation tenant customer ids channel now = record {
  id = ids.conversation_id;
  tenant_id = tenant;
  customer_id = customer;
  lead_id = ids.lead_id;
  channel = channel;
  mode = ConversationMode.ai_active;
  stage = "NEW_INQUIRY";
  last_customer_message_at = none;
  last_business_response_at = none;
  created_at = now;
  updated_at = now;
}

-- `value ?? fallback`
abbrev pub default {ℓ} : {A : Type ℓ} → Option A → A → A
default none fallback = fallback
default (some value) fallback = value

unfoldable pub create_journey : Uuid → JourneyCreationInput → FreshIds → Instant → Action FreshIds
unfolding initial_opportunity normalize_opportunity_source
create_journey tenant input ids now = do
  modify (λ s. record s {
    customers =
        s.customers
        ++ record {
          id = ids.customer_id;
          tenant_id = tenant;
          display_name = input.display_name;
          phone = input.phone;
          email = input.email;
          created_at = now;
        }
          ∷ [];
    leads =
        s.leads
        ++ new_lead tenant ids.customer_id ids input.source input.workflow_type input.service_id now
          ∷ [];
    conversations =
        s.conversations ++ new_conversation tenant ids.customer_id ids input.channel now ∷ [];
    opportunities =
        s.opportunities
        ++ initial_opportunity (record {
          id = ids.opportunity_id;
          tenant_id = tenant;
          customer_id = ids.customer_id;
          lead_id = ids.lead_id;
          conversation_id = ids.conversation_id;
          source = normalize_opportunity_source input.source;
          opportunity_type = default input.opportunity_type HvacOpportunityType.other;
          estimated_value_cents = input.estimated_value_cents;
          autonomy_level = default input.autonomy_level OpportunityAutonomyLevel.suggest;
          now = now;
        })
          ∷ [];
  })
  pure ids

-- For a customer who is known; `ids.customer_id` is that customer's.
unfoldable pub create_opportunity :
    Uuid → OpportunityCreationInput → FreshIds → Instant → Action FreshIds
unfolding initial_opportunity
create_opportunity tenant input ids now = do
  or_throw (← gets (λ s. find? (is_customer tenant ids.customer_id) s.customers))
      (api_error 404 resource_not_found)
  modify (λ s. record s {
    leads =
        s.leads
        ++ new_lead tenant ids.customer_id ids (source_text input.source) input.workflow_type
            input.service_id now
          ∷ [];
    conversations =
        s.conversations ++ new_conversation tenant ids.customer_id ids input.channel now ∷ [];
    opportunities =
        s.opportunities
        ++ initial_opportunity (record {
          id = ids.opportunity_id;
          tenant_id = tenant;
          customer_id = ids.customer_id;
          lead_id = ids.lead_id;
          conversation_id = ids.conversation_id;
          source = input.source;
          opportunity_type = input.opportunity_type;
          estimated_value_cents = input.estimated_value_cents;
          autonomy_level = input.autonomy_level;
          now = now;
        })
          ∷ [];
  })
  pure ids
