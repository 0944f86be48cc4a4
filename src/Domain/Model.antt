-- ===== src/Domain/Model.antt =====
-- The records of server/domain/model.ts, and the records and inputs that
-- server/infrastructure/inMemoryProductionStore.ts adds to them.
use closer_v.Prelude.{ℕ, Bool, String, List, Option}
use closer_v.Domain.Values.{
  Uuid, Key, Instant, TimeText, Cents, HvacOpportunityType, OpportunitySource,
  OpportunityAutonomyLevel, RevenueAttributionType,
}

pub data OrganizationRole : Type 0 where
  member admin owner : OrganizationRole

-- `Exclude<OrganizationRole, 'owner'>`
pub data InvitedRole : Type 0 where
  member admin : InvitedRole

-- The characters of an address; lower case is taken of its ASCII letters.
abbrev pub Email : Type 0
Email = List ℕ

pub record AuthenticatedIdentity : Type 0 where
  pub user_id : Uuid
  pub email : Option Email
  pub token_id : Option Key

pub record OrganizationMembership : Type 0 where
  pub tenant_id : Uuid
  pub tenant_name : String
  pub role : OrganizationRole
  pub active : Bool

-- An entry of `memberships`.
pub record MembershipEntry : Type 0 where
  pub user_id : Uuid
  pub membership : OrganizationMembership

pub record OrganizationInvitationRecord : Type 0 where
  pub id : Uuid
  pub tenant_id : Uuid
  pub email : Email
  pub role : InvitedRole
  pub expires_at : Instant
  pub accepted_at : Option Instant
  pub revoked_at : Option Instant
  pub created_at : Instant
  pub replayed : Bool

-- `InMemoryInvitation extends OrganizationInvitationRecord`
pub record InMemoryInvitation : Type 0 where
  pub invitation : OrganizationInvitationRecord
  pub open invitation use *
  pub token_hash : Key
  pub idempotency_key : Key

pub record OrganizationInvitationCreationRecord : Type 0 where
  pub email : Email
  pub role : InvitedRole
  pub idempotency_key : Key
  pub token_hash : Key
  pub expires_at : Instant

pub record InvitationAcceptanceResult : Type 0 where
  pub tenant_id : Uuid
  pub role : InvitedRole
  pub replayed : Bool

pub record CustomerRecord : Type 0 where
  pub id : Uuid
  pub tenant_id : Uuid
  pub display_name : String
  pub phone : String
  pub email : Option Email
  pub created_at : Instant

pub data ConversationMode : Type 0 where
  ai_active human_active paused closed : ConversationMode

pub record ConversationRecord : Type 0 where
  pub id : Uuid
  pub tenant_id : Uuid
  pub customer_id : Uuid
  pub lead_id : Uuid
  pub channel : String
  pub mode : ConversationMode
  pub stage : String
  pub last_customer_message_at : Option Instant
  pub last_business_response_at : Option Instant
  pub created_at : Instant
  pub updated_at : Instant

pub data WorkflowType : Type 0 where
  appointment_service quote_job : WorkflowType

pub data LeadStatus : Type 0 where
  new active lost won : LeadStatus

-- `LeadRecord` of the in-memory store.
pub record LeadRecord : Type 0 where
  pub id : Uuid
  pub tenant_id : Uuid
  pub customer_id : Uuid
  pub conversation_id : Uuid
  pub source : String
  pub workflow_type : WorkflowType
  pub service_id : Option Uuid
  pub status : LeadStatus
  pub marketing_allowed : Bool
  pub created_at : Option Instant
  pub updated_at : Option Instant

pub data BookingStatus : Type 0 where
  tentative confirmed cancelled completed no_show : BookingStatus

-- `BookingRecord` of the in-memory store.
pub record BookingRecord : Type 0 where
  pub id : Uuid
  pub tenant_id : Uuid
  pub customer_id : Uuid
  pub lead_id : Uuid
  pub total_cents : Cents
  pub idempotency_key : Key
  pub staff_id : Uuid
  pub start_at : TimeText
  pub end_at : TimeText
  pub status : BookingStatus

pub record BookingCreationInput : Type 0 where
  pub idempotency_key : Key
  pub customer_id : Uuid
  pub lead_id : Uuid
  pub service_id : Uuid
  pub staff_id : Uuid
  pub start_at : TimeText
  pub end_at : TimeText
  pub total_cents : Cents
  pub deposit_required_cents : Cents

pub data PaymentReferenceType : Type 0 where
  appointment quote job : PaymentReferenceType

pub data PaymentKind : Type 0 where
  deposit balance refund : PaymentKind

pub record PaymentCreationInput : Type 0 where
  pub idempotency_key : Key
  pub customer_id : Uuid
  pub lead_id : Uuid
  pub conversation_id : Uuid
  pub reference_type : PaymentReferenceType
  pub reference_id : Uuid
  pub kind : PaymentKind
  pub amount_cents : Cents
  pub original_payment_id : Option Uuid

-- `PaymentRecord extends PaymentCreationInput`
pub record PaymentRecord : Type 0 where
  pub input : PaymentCreationInput
  pub open input use *
  pub id : Uuid
  pub tenant_id : Uuid
  pub created_at : Instant

pub record PaymentCreationResult : Type 0 where
  pub payment_id : Uuid
  pub replayed : Bool

pub data RevenueLedgerStage : Type 0 where
  potential pipeline booked collected refunded recovered : RevenueLedgerStage

pub data RevenueEventType : Type 0 where
  estimate_created potential_revenue_at_risk booking_created booking_recovered job_won
        payment_received refund adjustment :
      RevenueEventType

-- `Omit<RevenueLedgerEntry, 'id' | 'tenantId' | 'occurredAt'>`
pub record RevenueEntryInput : Type 0 where
  pub customer_id : Uuid
  pub lead_id : Uuid
  pub conversation_id : Option Uuid
  pub payment_id : Option Uuid
  pub stage : RevenueLedgerStage
  pub amount_cents : Cents
  pub causation_key : Key
  pub opportunity_id : Option Uuid
  pub event_type : Option RevenueEventType
  pub attribution_type : Option RevenueAttributionType
  pub attribution_reason : Option String

pub record RevenueLedgerEntry : Type 0 where
  pub input : RevenueEntryInput
  pub open input use *
  pub id : Uuid
  pub tenant_id : Uuid
  pub occurred_at : Instant

pub record RevenueSummary : Type 0 where
  pub potential_cents : Cents
  pub pipeline_cents : Cents
  pub booked_cents : Cents
  pub collected_cents : Cents
  pub refunded_cents : Cents
  pub recovered_cents : Cents

pub data FollowUpJobStatus : Type 0 where
  scheduled leased completed failed cancelled : FollowUpJobStatus

pub record FollowUpJobRecord : Type 0 where
  pub id : Uuid
  pub tenant_id : Uuid
  pub conversation_id : Uuid
  pub customer_id : Uuid
  pub channel : String
  pub reason : String
  pub status : FollowUpJobStatus
  pub due_at : TimeText
  pub attempt_count : ℕ
  pub max_attempts : ℕ
  pub lease_owner : Option Key
  pub lease_expires_at : Option TimeText
  pub retry_at : Option TimeText
  pub last_error : Option String
  pub stop_reason : Option String
  pub manual_override : Bool
  pub last_response_at : Option Instant
  pub completed_at : Option Instant
  pub cancelled_at : Option Instant
  pub idempotency_key : Key
  pub draft_message : Option String
  pub created_at : Instant

-- The fields of a follow-up that `createFollowUp` takes.
pub record FollowUpCreationInput : Type 0 where
  pub conversation_id : Uuid
  pub customer_id : Uuid
  pub channel : String
  pub reason : String
  pub due_at : TimeText
  pub idempotency_key : Key
  pub draft_message : Option String

pub record JourneyCreationInput : Type 0 where
  pub idempotency_key : Key
  pub display_name : String
  pub phone : String
  pub email : Option Email
  pub source : String
  pub workflow_type : WorkflowType
  pub service_id : Option Uuid
  pub opportunity_type : Option HvacOpportunityType
  pub estimated_value_cents : Option Cents
  pub autonomy_level : Option OpportunityAutonomyLevel
  pub channel : String

pub record OpportunityCreationInput : Type 0 where
  pub idempotency_key : Key
  pub source : OpportunitySource
  pub workflow_type : WorkflowType
  pub service_id : Option Uuid
  pub opportunity_type : HvacOpportunityType
  pub estimated_value_cents : Option Cents
  pub autonomy_level : OpportunityAutonomyLevel
  pub channel : String

pub record CustomerResponseInput : Type 0 where
  pub provider_message_id : Key
  pub body : String

pub record CustomerResponseResult : Type 0 where
  pub message_id : Uuid
  pub opportunity_id : Uuid
  pub conversation_id : Uuid
  pub provider_replay : Bool

pub record WebhookEndpoint : Type 0 where
  pub tenant_id : Uuid
  pub provider : String
  pub endpoint_id : Key
  pub signing_secret_reference : String
  pub enabled : Bool

pub data ProcessingState : Type 0 where
  received processed failed : ProcessingState

pub record WebhookEventRecord : Type 0 where
  pub id : Uuid
  pub tenant_id : Uuid
  pub provider : String
  pub provider_event_id : Key
  pub received_at : Instant
  pub verified : Bool
  pub payload_hash : Key
  pub processing_state : ProcessingState
  pub replayed : Bool
