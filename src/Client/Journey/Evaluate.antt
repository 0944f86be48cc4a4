-- ===== src/Client/Journey/Evaluate.antt =====
-- `evaluate` of src/application/commercial/CommercialJourneyService.ts.
use closer_v.Prelude.{
  Bool, true, false, not, ◌&&◌, ◌||◌, ◌==◌, Option, none, some, List, if◌then◌else◌,
}
use closer_v.Prelude.Int.{ℤ, pos}
use closer_v.Domain.Values.{Uuid, Cents}
use closer_v.Client.Kinds.{AppointmentStatus, JobStatus, LeadStatus, PaymentReferenceType}
use closer_v.Client.Entities.{Appointment, Conversation, Job, Lead, Payment, Quote}
use closer_v.Client.Rules.{
  DomainCode, Checked, passed, refused, is_cancelled, collected_for_reference, remaining_balance,
}
use closer_v.Client.Repository.{get, list, find_all}
use closer_v.Client.Database.{
  Database, appointment_entity, quote_entity, job_entity, payment_entity, lead_entity,
  conversation_entity,
}
use closer_v.Client.Stage.{newest}
use closer_v.Client.Journey.View.{CommercialOpportunityView, JourneyReconciliation, JourneyState}
use closer_v.Client.Journey.Stages.{is_lost, is_zero, stage_of}
use closer_v.Client.Journey.Actions.{action_of}

-- What is paid for: the job, or else the appointment.
pub record Reference : Type 0 where
  pub kind : PaymentReferenceType
  pub id : Uuid
  pub total_cents : Cents

abbrev pub reference_of : Option Appointment → Option Job → Option Reference
reference_of a (some j) =
    some record { kind = PaymentReferenceType.job; id = j.id; total_cents = j.total_cents }
reference_of (some a) none =
    some record { kind = PaymentReferenceType.appointment; id = a.id; total_cents = a.total_cents }
reference_of none none = none

abbrev pub collected_of : List Payment → Option Reference → ℤ
collected_of payments none = pos 0
collected_of payments (some r) = collected_for_reference payments r.id (some r.kind)

abbrev pub remaining_of : List Payment → Option Reference → Option Cents
remaining_of payments none = none
remaining_of payments (some r) = some (remaining_balance r.total_cents payments r.id (some r.kind))

abbrev pub is_completed_appointment : Option Appointment → Bool
is_completed_appointment none = false
is_completed_appointment (some a) = elim a.status [ AppointmentStatus.completed ↦ true | _ ↦ false ]

abbrev pub is_completed_job : Option Job → Bool
is_completed_job none = false
is_completed_job (some j) = elim j.status [ JobStatus.completed ↦ true | _ ↦ false ]

abbrev pub through {ℓ κ} : {A : Type ℓ} {B : Type κ} → (A → B) → Option A → Option B
through f none = none
through f (some a) = some (f a)

abbrev pub or_zero : Option Cents → Cents
or_zero none = 0
or_zero (some n) = n

abbrev pub journey_state :
    Lead
    → Conversation
    → Option Appointment
    → Option Quote
    → Option Job
    → List Payment
    → JourneyState
journey_state lead conversation a q j payments = record {
  lead_status = lead.status;
  conversation_mode = conversation.mode;
  appointment_status = through (λ x. x.status) a;
  appointment_deposit_required = or_zero (through (λ x. x.deposit_required_cents) a);
  appointment_start_at = through (λ x. x.start_at) a;
  quote_status = through (λ x. x.status) q;
  quote_updated_at = through (λ x. x.updated_at) q;
  job_status = through (λ x. x.status) j;
  job_deposit_required = or_zero (through (λ x. x.deposit_required_cents) j);
  collected_cents = collected_of payments (reference_of a j);
  remaining_balance_cents = remaining_of payments (reference_of a j);
  completed = is_completed_appointment a || is_completed_job j;
  fallback_stage = conversation.inferred_stage;
}

-- `completed && remainingBalanceCents === 0`
abbrev pub closes_won : JourneyState → Bool
closes_won i = i.completed && is_zero i.remaining_balance_cents

-- `reference?.totalCents ?? quote?.totalCents ?? null`
abbrev pub total_of : Option Reference → Option Quote → Option Cents
total_of (some r) q = some r.total_cents
total_of none q = through (λ x. x.total_cents) q

abbrev pub view_of :
    Uuid
    → Lead
    → Option Appointment
    → Option Quote
    → Option Job
    → JourneyState
    → CommercialOpportunityView
view_of business lead a q j i = record {
  business_id = business;
  lead_id = lead.id;
  contact_id = lead.contact_id;
  conversation_id = lead.conversation_id;
  service_id = lead.service_id;
  workflow_type = lead.workflow_type;
  lead_status = if closes_won i then LeadStatus.won else lead.status;
  lost_reason = lead.lost_reason;
  stage = stage_of i;
  appointment_id = through (λ x. x.id) a;
  quote_id = through (λ x. x.id) q;
  job_id = through (λ x. x.id) j;
  total_cents = total_of (reference_of a j) q;
  collected_cents = i.collected_cents;
  remaining_balance_cents = i.remaining_balance_cents;
  next_action_id = lead.next_action_id;
}

abbrev pub reconcile :
    Uuid
    → Lead
    → Option Appointment
    → Option Quote
    → Option Job
    → JourneyState
    → JourneyReconciliation
reconcile business lead a q j i = record {
  opportunity = view_of business lead a q j i;
  recommended = action_of (view_of business lead a q j i) i;
  should_close_won = closes_won i;
  should_remain_closed_lost = is_lost lead.status;
}

abbrev pub is_cancelled_job : JobStatus → Bool
is_cancelled_job JobStatus.cancelled = true
is_cancelled_job _ = false

abbrev pub appointment_of : Uuid → Lead → Database → Option Appointment
appointment_of business lead d =
    newest
      (find_all business (λ a. a.lead_id == lead.id && not (is_cancelled a.status)) d.appointments)

abbrev pub quote_of : Uuid → Lead → Database → Option Quote
quote_of business lead d = newest (find_all business (λ q. q.lead_id == lead.id) d.quotes)

abbrev pub job_of : Uuid → Lead → Database → Option Job
job_of business lead d =
    newest (find_all business (λ j. j.lead_id == lead.id && not (is_cancelled_job j.status)) d.jobs)

abbrev pub evaluate_lead : Uuid → Lead → Conversation → Database → JourneyReconciliation
evaluate_lead business lead conversation d =
    let a = appointment_of business lead d in
    let q = quote_of business lead d in
    let j = job_of business lead d in
    reconcile business lead a q j (journey_state lead conversation a q j (list business d.payments))

unfoldable pub evaluate : Uuid → Uuid → Database → Checked JourneyReconciliation
evaluate business id d = elim (get business id d.leads) [
  | none ↦ refused DomainCode.not_found
  | some lead ↦ elim (get business lead.conversation_id d.conversations) [
    | none ↦ refused DomainCode.not_found
    | some conversation ↦ passed (evaluate_lead business lead conversation d)
  ]
]
