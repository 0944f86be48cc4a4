-- ===== src/Client/Journey/Stages.antt =====
-- `stage` of src/application/commercial/CommercialJourneyService.ts.
use closer_v.Prelude.{Bool, true, false, ◌||◌, ◌==◌, ltb, Option, none, some, if◌then◌else◌}
use closer_v.Prelude.Int.{ℤ, pos, negsuc}
use closer_v.Domain.Values.{Cents}
use closer_v.Client.Kinds.{AppointmentStatus, ConversationStage, JobStatus, LeadStatus, QuoteStatus}
use closer_v.Client.Database.{
  appointment_entity, quote_entity, job_entity, payment_entity, lead_entity, conversation_entity,
}
use closer_v.Client.Stage.{is_human_led}
use closer_v.Client.Journey.View.{JourneyState}

-- `collectedCents < required`
abbrev pub is_below : ℤ → Cents → Bool
is_below (pos n) required = ltb n required
is_below (negsuc n) required = true

abbrev pub is_lost : LeadStatus → Bool
is_lost LeadStatus.lost = true
is_lost _ = false

abbrev pub is_zero : Option Cents → Bool
is_zero none = false
is_zero (some n) = n == 0

abbrev pub quote_part : JourneyState → ConversationStage
quote_part i = elim i.quote_status [
  | some QuoteStatus.draft ↦ ConversationStage.quote_preparation
  | some QuoteStatus.sent ↦ ConversationStage.quote_sent
  | some QuoteStatus.viewed ↦ ConversationStage.quote_sent
  | some QuoteStatus.change_requested ↦ ConversationStage.quote_sent
  | _ ↦ elim i.lead_status [ LeadStatus.won ↦ ConversationStage.closed_won | _ ↦ i.fallback_stage ]
]

abbrev pub appointment_part : JourneyState → ConversationStage
appointment_part i = elim i.appointment_status [
  | none ↦ quote_part i
  | some status ↦
      if is_below i.collected_cents i.appointment_deposit_required
      then ConversationStage.awaiting_deposit
      else elim status [
        | AppointmentStatus.confirmed ↦ ConversationStage.booked
        | _ ↦ ConversationStage.awaiting_confirmation
      ]
]

abbrev pub is_pending_deposit : JobStatus → Bool
is_pending_deposit JobStatus.pending_deposit = true
is_pending_deposit _ = false

abbrev pub job_part : JourneyState → ConversationStage
job_part i = elim i.job_status [
  | none ↦ appointment_part i
  | some status ↦
      if is_pending_deposit status || is_below i.collected_cents i.job_deposit_required
      then ConversationStage.awaiting_deposit
      else elim status [
        | JobStatus.scheduled ↦ ConversationStage.job_scheduled
        | JobStatus.in_progress ↦ ConversationStage.job_scheduled
        | _ ↦ ConversationStage.booked
      ]
]

unfoldable pub stage_of : JourneyState → ConversationStage
stage_of i =
    if is_human_led i.conversation_mode
    then ConversationStage.human_review
    else if is_lost i.lead_status
    then ConversationStage.closed_lost
    else if i.completed
    then (if is_zero i.remaining_balance_cents
        then ConversationStage.closed_won
        else ConversationStage.awaiting_balance)
    else job_part i
