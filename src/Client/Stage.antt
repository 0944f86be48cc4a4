-- ===== src/Client/Stage.antt =====
-- `ConversationStageService` of src/application/conversation/ConversationStageService.ts.
pub mod Newest
use closer_v.Prelude.{
  ℕ, ◌+◌, Bool, true, false, ◌&&◌, ◌==◌, ltb, leb, Option, none, some, List, [], ◌∷◌, any, every,
  if◌then◌else◌,
}
use closer_v.Domain.Values.{Uuid}
use closer_v.Client.Kinds.{
  AppointmentStatus, ConversationMode, ConversationStage, CustomerFactKey, FollowUpStatus,
  JobStatus, LeadStatus, PaymentReferenceType, QuoteStatus, WorkflowType,
}
use closer_v.Client.Entities.{
  Appointment, BusinessKnowledge, Conversation, CustomerMemoryItem, Job, Lead, Payment, Quote,
  ScheduledFollowUp,
}
use closer_v.Client.Rules.{remaining_balance}
use closer_v.Client.Repository.{Entity}
use closer_v.Client.Database.{appointment_entity, job_entity, quote_entity}

pub record StageContext : Type 0 where
  pub lead : Lead
  pub conversation : Conversation
  pub knowledge : BusinessKnowledge
  pub memory : List CustomerMemoryItem
  pub appointments : List Appointment
  pub quotes : List Quote
  pub jobs : List Job
  pub payments : List Payment
  pub follow_ups : List ScheduledFollowUp

module _ {ℓ} {A : Type ℓ} ⦃e : Entity A⦄ where
  abbrev pub keep_newer : Option A → A → Option A
  keep_newer none candidate = some candidate
  keep_newer (some latest) candidate =
      if leb (e.base_of latest).updated_at (e.base_of candidate).updated_at
      then some candidate
      else some latest

  -- The `reduce` over the items, from the latest so far.
  abbrev pub newest_from : Option A → List A → Option A
  newest_from latest [] = latest
  newest_from latest (a ∷ rest) = newest_from (keep_newer latest a) rest

  abbrev pub newest : List A → Option A
  newest items = newest_from none items

-- The place of a key in the enumeration, which tells keys apart.
abbrev pub key_place : CustomerFactKey → ℕ
key_place CustomerFactKey.requested_service = 0
key_place CustomerFactKey.customer_type = 1
key_place CustomerFactKey.preferred_date = 2
key_place CustomerFactKey.preferred_time = 3
key_place CustomerFactKey.treatment_preference = 4
key_place CustomerFactKey.vehicle_make = 5
key_place CustomerFactKey.vehicle_model = 6
key_place CustomerFactKey.vehicle_year = 7
key_place CustomerFactKey.vehicle_condition = 8
key_place CustomerFactKey.photos_received = 9
key_place CustomerFactKey.requested_job = 10
key_place CustomerFactKey.location = 11
key_place CustomerFactKey.address = 12
key_place CustomerFactKey.job_details = 13
key_place CustomerFactKey.urgency = 14
key_place CustomerFactKey.access_considerations = 15
key_place CustomerFactKey.special_requirements = 16

abbrev pub is_human_led : ConversationMode → Bool
is_human_led ConversationMode.human_active = true
is_human_led ConversationMode.paused = true
is_human_led _ = false

-- The fields of a service, and `Object.values(...)[0] ?? []` where the lead has none.
abbrev pub first_fields : List (Uuid × List CustomerFactKey) → List CustomerFactKey
first_fields [] = []
first_fields ((id, keys) ∷ fields) = keys

abbrev pub fields_of : Uuid → List (Uuid × List CustomerFactKey) → List CustomerFactKey
fields_of service [] = []
fields_of service ((id, keys) ∷ fields) = if id == service then keys else fields_of service fields

abbrev pub required_facts : Lead → BusinessKnowledge → List CustomerFactKey
required_facts lead knowledge = elim lead.service_id [
  | some service ↦ fields_of service knowledge.service_qualification_fields
  | none ↦ first_fields knowledge.service_qualification_fields
]

abbrev pub is_known : List CustomerMemoryItem → CustomerFactKey → Bool
is_known memory key = any (λ fact. key_place fact.key == key_place key) memory

abbrev pub has_any : {A : Type 0} → List A → Bool
has_any [] = false
has_any (a ∷ rest) = true

abbrev pub is_scheduled : FollowUpStatus → Bool
is_scheduled FollowUpStatus.scheduled = true
is_scheduled _ = false

-- The stage of a lead without work that says more: what is known of the customer.
abbrev pub facts_stage : StageContext → ConversationStage
facts_stage c =
    if has_any (required_facts c.lead c.knowledge)
      && every (is_known c.memory) (required_facts c.lead c.knowledge)
    then elim c.lead.workflow_type [
      | WorkflowType.appointment_service ↦ ConversationStage.ready_to_book
      | _ ↦ ConversationStage.ready_for_quote
    ]
    else if has_any c.memory
    then ConversationStage.information_collection
    else if any (λ f. is_scheduled f.status) c.follow_ups
    then ConversationStage.discovery
    else elim c.conversation.last_customer_message_at [
      | some at ↦ ConversationStage.discovery
      | none ↦ ConversationStage.new_inquiry
    ]

abbrev pub quote_stage : StageContext → Option Quote → ConversationStage
quote_stage c none = facts_stage c
quote_stage c (some quote) = elim quote.status [
  | QuoteStatus.sent ↦ ConversationStage.quote_sent
  | QuoteStatus.viewed ↦ ConversationStage.quote_sent
  | QuoteStatus.change_requested ↦ ConversationStage.quote_sent
  | QuoteStatus.draft ↦ ConversationStage.quote_preparation
  | _ ↦ facts_stage c
]

abbrev pub balance_stage : ℕ → ConversationStage
balance_stage balance =
    if ltb 0 balance then ConversationStage.awaiting_balance else ConversationStage.closed_won

abbrev pub job_stage : StageContext → Option Job → ConversationStage
job_stage c none = quote_stage c (newest c.quotes)
job_stage c (some job) = elim job.status [
  | JobStatus.completed ↦
      balance_stage
        (remaining_balance job.total_cents c.payments job.id (some PaymentReferenceType.job))
  | JobStatus.pending_deposit ↦ ConversationStage.awaiting_deposit
  | JobStatus.scheduled ↦ ConversationStage.job_scheduled
  | JobStatus.in_progress ↦ ConversationStage.job_scheduled
  | _ ↦ ConversationStage.booked
]

-- `appointment.totalCents - balance < appointment.depositRequiredCents`, of integers.
abbrev pub lacks_deposit : Appointment → ℕ → Bool
lacks_deposit a balance = ltb a.total_cents (a.deposit_required_cents + balance)

abbrev pub open_appointment_stage : Appointment → ℕ → ConversationStage
open_appointment_stage a balance =
    if lacks_deposit a balance then ConversationStage.awaiting_deposit else elim a.status [
      | AppointmentStatus.confirmed ↦ ConversationStage.booked
      | _ ↦ ConversationStage.awaiting_confirmation
    ]

abbrev pub appointment_stage : StageContext → Option Appointment → ConversationStage
appointment_stage c none = job_stage c (newest c.jobs)
appointment_stage c (some a) =
    let balance =
      remaining_balance a.total_cents c.payments a.id (some PaymentReferenceType.appointment) in
    elim a.status [
      | AppointmentStatus.completed ↦ balance_stage balance
      | _ ↦ open_appointment_stage a balance
    ]

unfoldable pub infer : StageContext → ConversationStage
infer c =
    if is_human_led c.conversation.mode
    then ConversationStage.human_review
    else elim c.lead.status [
      | LeadStatus.won ↦ ConversationStage.closed_won
      | LeadStatus.lost ↦ ConversationStage.closed_lost
      | LeadStatus.archived ↦ ConversationStage.closed_lost
      | _ ↦ appointment_stage c (newest c.appointments)
    ]
