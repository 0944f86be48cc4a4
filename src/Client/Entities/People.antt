-- ===== src/Client/Entities/People.antt =====
-- The records of src/domain/entities.ts: who the business talks to, and what is said and known.
use closer_v.Prelude.{ℕ, Bool, String, List, Option}
use closer_v.Domain.Values.{Uuid, Key, Instant}
use closer_v.Client.Kinds.{
  WorkflowType, BusinessKind, KnowledgeTopic, TeamRole, LeadStatus, LeadSource, LeadPriority,
  SalesObjection, OpportunityLostReason, ConversationChannel, ConversationMode, ConversationState,
  ConversationStage, ConversationIntent, MessageDirection, MessageAuthor, MessagePurpose,
  NextActionType, NextActionStatus, ActivityType, HandoffReason, CustomerFactKey, MemorySource,
  FollowUpScenario, Currency, ConsentSource, StartedBy,
}
use closer_v.Client.Entities.Base.{TenantEntity, Scalar, PriceRange}

pub record Business : Type 0 where
  pub base : TenantEntity
  pub open base use *
  pub name : String
  pub kind : BusinessKind
  pub workflow_type : WorkflowType
  pub currency : Currency
  pub time_zone : String

pub record BusinessSettings : Type 0 where
  pub base : TenantEntity
  pub open base use *
  pub tax_enabled : Bool
  pub tax_rate_basis_points : ℕ
  pub default_deposit_basis_points : ℕ
  pub payment_methods : List String
  pub follow_up_cadence_hours : List (FollowUpScenario × List ℕ)
  pub reactivation_inactivity_days : ℕ

pub record KnowledgeFaq : Type 0 where
  pub question : String
  pub answer : String

pub record BusinessKnowledge : Type 0 where
  pub base : TenantEntity
  pub open base use *
  pub business_name : String
  pub service_descriptions : List (Uuid × String)
  pub fixed_prices_cents : List (Uuid × ℕ)
  pub price_ranges_cents : List (Uuid × PriceRange)
  pub pricing_rules : List String
  pub service_durations_minutes : List (Uuid × ℕ)
  pub preparation_instructions : List (Uuid × List String)
  pub opening_hours : String
  pub address : String
  pub service_area : String
  pub service_area_locations : List String
  pub appointment_rules : List String
  pub cancellation_policy : String
  pub deposit_policy : String
  pub accepted_payment_methods : List String
  pub faq : List KnowledgeFaq
  pub tone_of_voice : String
  pub allowed_automatic_answers : List KnowledgeTopic
  pub answers_requiring_human_review : List String
  pub prohibited_autonomous_actions : List String
  pub required_qualification_fields : List String
  pub service_qualification_fields : List (Uuid × List CustomerFactKey)
  pub minimum_assistant_confidence : ℕ

pub record TeamMember : Type 0 where
  pub base : TenantEntity
  pub open base use *
  pub name : String
  pub role : TeamRole
  pub active : Bool
  pub service_ids : List Uuid

pub record Contact : Type 0 where
  pub base : TenantEntity
  pub open base use *
  pub display_name : String
  pub phone : String
  pub email : Option String
  pub address : Option String
  pub notes : List String

pub record Lead : Type 0 where
  pub base : TenantEntity
  pub open base use *
  pub contact_id : Uuid
  pub conversation_id : Uuid
  pub workflow_type : WorkflowType
  pub status : LeadStatus
  pub service_id : Option Uuid
  pub next_action_id : Option Uuid
  pub closed_at : Option Instant
  pub lost_reason : Option OpportunityLostReason
  pub source : LeadSource
  pub source_reference_id : Option Uuid
  pub priority : LeadPriority
  pub objections : List SalesObjection

pub record Conversation : Type 0 where
  pub base : TenantEntity
  pub open base use *
  pub contact_id : Uuid
  pub channel : ConversationChannel
  pub owner_team_member_id : Option Uuid
  pub state : ConversationState
  pub inferred_stage : ConversationStage
  pub mode : ConversationMode
  pub automation_enabled : Bool
  pub last_customer_message_at : Option Instant
  pub last_business_response_at : Option Instant
  pub current_intent : Option ConversationIntent
  pub missing_information : List String
  pub next_action_id : Option Uuid
  pub handoff_id : Option Uuid

pub record Message : Type 0 where
  pub base : TenantEntity
  pub open base use *
  pub conversation_id : Uuid
  pub direction : MessageDirection
  pub author : MessageAuthor
  pub purpose : MessagePurpose
  pub body : String
  pub provider_message_id : Option Uuid
  pub sent_at : Instant

pub record NextAction : Type 0 where
  pub base : TenantEntity
  pub open base use *
  pub lead_id : Uuid
  pub conversation_id : Uuid
  pub kind_ : NextActionType
  pub status : NextActionStatus
  pub reason : String
  pub due_at : Option Instant
  pub automatic : Bool

pub record Activity : Type 0 where
  pub base : TenantEntity
  pub open base use *
  pub contact_id : Option Uuid
  pub conversation_id : Option Uuid
  pub kind_ : ActivityType
  pub summary : String
  pub metadata : List (String × Option Scalar)
  pub occurred_at : Instant
  pub operation_key : Option Key

pub record ConsentRecord : Type 0 where
  pub base : TenantEntity
  pub open base use *
  pub contact_id : Uuid
  pub marketing_allowed : Bool
  pub operational_allowed : Bool
  pub opted_out : Bool
  pub source : ConsentSource
  pub changed_at : Instant

pub record HumanHandoff : Type 0 where
  pub base : TenantEntity
  pub open base use *
  pub conversation_id : Uuid
  pub reason : HandoffReason
  pub detail : String
  pub started_at : Instant
  pub resolved_at : Option Instant
  pub started_by : StartedBy
  pub triggering_message_id : Option Uuid
  pub confidence : Option ℕ
  pub responsible_state : ConversationStage

pub record CustomerMemoryItem : Type 0 where
  pub base : TenantEntity
  pub open base use *
  pub contact_id : Uuid
  pub key : CustomerFactKey
  pub value : Scalar
  pub source : MemorySource
  pub source_message_id : Option Uuid
