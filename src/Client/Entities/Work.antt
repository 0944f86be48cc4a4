-- ===== src/Client/Entities/Work.antt =====
-- The records of src/domain/entities.ts: what the business sells, is paid for and follows up.
use closer_v.Prelude.{ℕ, Bool, String, List, Option}
use closer_v.Prelude.Int.{ℤ}
use closer_v.Domain.Values.{Uuid, Key, Instant, Cents}
use closer_v.Client.Kinds.{
  WorkflowType, LeadSource, MessagePurpose, AppointmentStatus, Weekday, QuoteStatus, JobStatus,
  PaymentKind, PaymentStatus, PaymentReferenceType, FollowUpScenario, FollowUpStatus,
  FollowUpChannel, FollowUpOwner, FollowUpResult, FollowUpStopReason, RevenueStage,
  RevenueAttributionKind, RevenueAttributionStatus, AttemptResult,
}
use closer_v.Client.Entities.Base.{TenantEntity}

pub record Service : Type 0 where
  pub base : TenantEntity
  pub open base use *
  pub name : String
  pub description : String
  pub duration_minutes : ℕ
  pub fixed_price_cents : Option Cents
  pub active : Bool
  pub requires_deposit : Bool
  pub workflow_type : WorkflowType

pub record Appointment : Type 0 where
  pub base : TenantEntity
  pub open base use *
  pub contact_id : Uuid
  pub lead_id : Uuid
  pub service_id : Uuid
  pub staff_id : Uuid
  pub start_at : Instant
  pub end_at : Instant
  pub status : AppointmentStatus
  pub total_cents : Cents
  pub deposit_required_cents : Cents
  pub confirmed_at : Option Instant
  pub completed_at : Option Instant
  pub operation_key : Key

pub record AvailabilityRule : Type 0 where
  pub base : TenantEntity
  pub open base use *
  pub staff_id : Uuid
  pub weekdays : List Weekday
  pub start_time : String
  pub end_time : String
  pub slot_interval_minutes : ℕ

pub record QuoteItem : Type 0 where
  pub id : Uuid
  pub description : String
  pub quantity : ℤ
  pub unit_price_cents : ℤ

pub record Quote : Type 0 where
  pub base : TenantEntity
  pub open base use *
  pub contact_id : Uuid
  pub lead_id : Uuid
  pub items : List QuoteItem
  pub subtotal_cents : Cents
  pub discount_cents : Cents
  pub tax_cents : Cents
  pub deposit_required_cents : Cents
  pub total_cents : Cents
  pub status : QuoteStatus
  pub expires_at : Option Instant
  pub accepted_at : Option Instant
  pub operation_key : Key

pub record Job : Type 0 where
  pub base : TenantEntity
  pub open base use *
  pub contact_id : Uuid
  pub lead_id : Uuid
  pub quote_id : Uuid
  pub address : Option String
  pub scheduled_start_at : Option Instant
  pub scheduled_end_at : Option Instant
  pub assigned_staff_id : Option Uuid
  pub status : JobStatus
  pub total_cents : Cents
  pub deposit_required_cents : Cents
  pub completed_at : Option Instant
  pub operation_key : Key

pub record Payment : Type 0 where
  pub base : TenantEntity
  pub open base use *
  pub contact_id : Uuid
  pub reference_type : PaymentReferenceType
  pub reference_id : Uuid
  pub kind : PaymentKind
  pub status : PaymentStatus
  pub amount_cents : Cents
  pub idempotency_key : Key
  pub original_payment_id : Option Uuid
  pub collected_at : Instant

pub record FollowUpAttempt : Type 0 where
  pub operation_key : Key
  pub result : AttemptResult
  pub attempted_at : Instant

pub record ScheduledFollowUp : Type 0 where
  pub base : TenantEntity
  pub open base use *
  pub contact_id : Uuid
  pub conversation_id : Uuid
  pub scenario : FollowUpScenario
  pub status : FollowUpStatus
  pub purpose : MessagePurpose
  pub due_at : Instant
  pub idempotency_key : Key
  pub triggering_message_id : Option Key
  pub reason : String
  pub sequence_key : Key
  pub sequence_step : ℕ
  pub channel : FollowUpChannel
  pub attempt_count : ℕ
  pub attempts : List FollowUpAttempt
  pub next_attempt_at : Option Instant
  pub last_attempt_at : Option Instant
  pub last_response_at : Option Instant
  pub stop_reason : Option FollowUpStopReason
  pub manual_override : Bool
  pub owner : FollowUpOwner
  pub owner_team_member_id : Option Uuid
  pub draft_message : Option String
  pub result : FollowUpResult

pub record RevenueEvent : Type 0 where
  pub base : TenantEntity
  pub open base use *
  pub contact_id : Uuid
  pub lead_id : Uuid
  pub conversation_id : Uuid
  pub lead_source : LeadSource
  pub reference_type : PaymentReferenceType
  pub reference_id : Uuid
  pub stage : RevenueStage
  pub amount_cents : Cents
  pub causation_id : Uuid
  pub correlation_id : Uuid
  pub attribution_status : RevenueAttributionStatus
  pub attribution_kind : Option RevenueAttributionKind
  pub contributing_activity_ids : List Uuid
  pub attribution_operation_key : Option Key
  pub attributed_at : Option Instant
  pub attributed_by_team_member_id : Option Uuid
  pub occurred_at : Instant
