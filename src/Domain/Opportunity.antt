-- ===== src/Domain/Opportunity.antt =====
-- The records of server/domain/opportunity.ts.
use closer_v.Prelude.{ℕ, Bool, String, List, Option}
use closer_v.Domain.Values.{
  Uuid, Key, Instant, Cents, OpportunityStatus, RecoveryState, HvacOpportunityType,
  OpportunitySource, OpportunityAutonomyLevel, RevenueAttributionType, RecoveryPlayType,
  RecoveryActionStatus, NextBestActionKind, Channel, RequestedBy, DeliveryState, ExecutionState,
  SuppressionReason, ReasonCode,
}

pub record ExplainableScore : Type 0 where
  pub value : ℕ
  pub reason_codes : List ReasonCode
  pub explanation : String
  pub version : String

pub record OpportunityScores : Type 0 where
  pub intent : ExplainableScore
  pub revenue : ExplainableScore
  pub recovery : ExplainableScore
  pub urgency : ExplainableScore

pub record OpportunityRecord : Type 0 where
  pub id : Uuid
  pub tenant_id : Uuid
  pub customer_id : Uuid
  pub lead_id : Option Uuid
  pub conversation_id : Option Uuid
  pub source : OpportunitySource
  pub opportunity_type : HvacOpportunityType
  pub estimated_value_cents : Option Cents
  pub currency : String
  pub scores : OpportunityScores
  pub status : OpportunityStatus
  pub recovery_state : RecoveryState
  pub autonomy_level : OpportunityAutonomyLevel
  pub assigned_human_id : Option Uuid
  pub last_customer_activity_at : Option Instant
  pub last_business_activity_at : Option Instant
  pub next_action_at : Option Instant
  pub booking_id : Option Uuid
  pub estimate_id : Option Uuid
  pub job_id : Option Uuid
  pub won_at : Option Instant
  pub lost_at : Option Instant
  pub lost_reason : Option String
  pub revenue_attributed_cents : Cents
  pub attribution_type : Option RevenueAttributionType
  pub attribution_reason : Option String
  pub created_at : Instant
  pub updated_at : Instant

pub record OpportunityObservation : Type 0 where
  pub now : Instant
  pub source : OpportunitySource
  pub status : OpportunityStatus
  pub recovery_state : RecoveryState
  pub opportunity_type : HvacOpportunityType
  pub estimated_value_cents : Option Cents
  pub average_ticket_cents : Option Cents
  pub last_customer_activity_at : Option Instant
  pub last_business_activity_at : Option Instant
  pub has_customer_reply : Bool
  pub has_explicit_service_intent : Bool
  pub has_booking_request : Bool
  pub has_estimate : Bool
  pub estimate_viewed_count : ℕ
  pub estimate_created_at : Option Instant
  pub has_explicit_rejection : Bool
  pub has_active_handoff : Bool
  pub is_human_required : Bool
  pub opted_out : Bool
  pub operational_communication_allowed : Bool
  pub within_contact_window : Bool
  pub follow_up_attempts : ℕ
  pub has_other_active_opportunity : Bool

pub record NextBestAction : Type 0 where
  pub kind : NextBestActionKind
  pub reason_code : String
  pub label : String
  pub channel : Option Channel
  pub requires_approval : Bool
  pub due_at : Option Instant

pub record RecoveryActionRecord : Type 0 where
  pub id : Uuid
  pub tenant_id : Uuid
  pub opportunity_id : Uuid
  pub decision_id : Uuid
  pub action_kind : NextBestActionKind
  pub channel : Option Channel
  pub status : RecoveryActionStatus
  pub requires_approval : Bool
  pub requested_by : RequestedBy
  pub idempotency_key : Key
  pub valid_until : Option Instant
  pub approved_by_user_id : Option Uuid
  pub approved_at : Option Instant
  pub started_at : Option Instant
  pub completed_at : Option Instant
  pub cancelled_at : Option Instant
  pub last_error : Option String
  pub delivery_state : DeliveryState
  pub created_at : Instant
  pub updated_at : Instant

pub record RecoveryDecision : Type 0 where
  pub opportunity_id : Uuid
  pub play_type : Option RecoveryPlayType
  pub eligible : Bool
  pub suppression_reason : Option SuppressionReason
  pub scores : OpportunityScores
  pub next_best_action : NextBestAction
  pub policy_version : String
  pub idempotency_key : Key
  pub decided_at : Instant

-- `extends RecoveryDecision`
pub record RecoveryDecisionRecord : Type 0 where
  pub decision : RecoveryDecision
  pub open decision use *
  pub id : Uuid
  pub tenant_id : Uuid
  pub executed_at : Option Instant
  pub execution_state : ExecutionState

pub record RecoveryEvaluationRecord : Type 0 where
  pub decision : RecoveryDecisionRecord
  pub action : RecoveryActionRecord
