-- ===== src/Client/Journey/View.antt =====
-- The views of src/types/commercial.ts, and what `evaluate` of CommercialJourneyService
-- gathers of the work of a lead.
use closer_v.Prelude.{Bool, Option, String}
use closer_v.Prelude.Int.{ℤ}
use closer_v.Domain.Values.{Uuid, Instant, Cents}
use closer_v.Client.Kinds.{
  AppointmentStatus, ConversationMode, ConversationStage, JobStatus, LeadStatus, NextActionType,
  OpportunityLostReason, QuoteStatus, WorkflowType,
}
use closer_v.Client.Database.{
  appointment_entity, quote_entity, job_entity, payment_entity, lead_entity, conversation_entity,
}

pub record CommercialOpportunityView : Type 0 where
  pub business_id : Uuid
  pub lead_id : Uuid
  pub contact_id : Uuid
  pub conversation_id : Uuid
  pub service_id : Option Uuid
  pub workflow_type : WorkflowType
  pub lead_status : LeadStatus
  pub lost_reason : Option OpportunityLostReason
  pub stage : ConversationStage
  pub appointment_id : Option Uuid
  pub quote_id : Option Uuid
  pub job_id : Option Uuid
  pub total_cents : Option Cents
  pub collected_cents : ℤ
  pub remaining_balance_cents : Option Cents
  pub next_action_id : Option Uuid

pub record JourneyActionRecommendation : Type 0 where
  pub action : NextActionType
  pub reason : String
  pub due_at : Option Instant
  pub automatic : Bool

pub record JourneyReconciliation : Type 0 where
  pub opportunity : CommercialOpportunityView
  pub recommended : Option JourneyActionRecommendation
  pub should_close_won : Bool
  pub should_remain_closed_lost : Bool

-- What `evaluate` gathers of the work of a lead, for the stage and for the action.
pub record JourneyState : Type 0 where
  pub lead_status : LeadStatus
  pub conversation_mode : ConversationMode
  pub appointment_status : Option AppointmentStatus
  pub appointment_deposit_required : Cents
  pub appointment_start_at : Option Instant
  pub quote_status : Option QuoteStatus
  pub quote_updated_at : Option Instant
  pub job_status : Option JobStatus
  pub job_deposit_required : Cents
  pub collected_cents : ℤ
  pub remaining_balance_cents : Option Cents
  pub completed : Bool
  pub fallback_stage : ConversationStage
