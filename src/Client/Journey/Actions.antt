-- ===== src/Client/Journey/Actions.antt =====
-- `action` of src/application/commercial/CommercialJourneyService.ts.
use closer_v.Prelude.{Bool, true, false, ◌||◌, Option, none, some, String, if◌then◌else◌}
use closer_v.Domain.Values.{Instant}
use closer_v.Client.Kinds.{
  AppointmentStatus, ConversationStage, JobStatus, NextActionType, QuoteStatus, WorkflowType,
}
use closer_v.Client.Database.{
  appointment_entity, quote_entity, job_entity, payment_entity, lead_entity, conversation_entity,
}
use closer_v.Client.Stage.{is_human_led}
use closer_v.Client.Journey.View.{
  CommercialOpportunityView, JourneyActionRecommendation, JourneyState,
}
use closer_v.Client.Journey.Stages.{is_below, is_lost}

abbrev pub recommendation :
    NextActionType → String → Option Instant → Bool → Option JourneyActionRecommendation
recommendation action reason due automatic =
    some record { action = action; reason = reason; due_at = due; automatic = automatic }

abbrev pub offer_appointment : Option JourneyActionRecommendation
offer_appointment =
    recommendation NextActionType.offer_appointment "Offer validated appointment times." none false

abbrev pub prepare_quote : Option JourneyActionRecommendation
prepare_quote =
    recommendation NextActionType.prepare_quote "Prepare a quote from the collected details." none
      false

abbrev pub stage_action : CommercialOpportunityView → Option JourneyActionRecommendation
stage_action o = elim o.stage [
  | ConversationStage.ready_to_book ↦ offer_appointment
  | ConversationStage.ready_for_quote ↦ prepare_quote
  | ConversationStage.information_collection ↦
      recommendation NextActionType.collect_information "Collect the missing customer details." none
        false
  | ConversationStage.new_inquiry ↦
      recommendation NextActionType.reply_to_customer "Reply to the customer." none false
  | ConversationStage.discovery ↦
      recommendation NextActionType.reply_to_customer "Reply to the customer." none false
  | _ ↦ elim o.workflow_type [
    | WorkflowType.appointment_service ↦ offer_appointment
    | _ ↦ prepare_quote
  ]
]

abbrev pub follow_up_quote : JourneyState → Option JourneyActionRecommendation
follow_up_quote i =
    recommendation NextActionType.follow_up_quote
      "Follow up on the quote if the customer has not replied." i.quote_updated_at true

abbrev pub quote_action :
    CommercialOpportunityView → JourneyState → Option JourneyActionRecommendation
quote_action o i = elim i.quote_status [
  | some QuoteStatus.draft ↦
      recommendation NextActionType.send_quote "Review and send the quote." none false
  | some QuoteStatus.sent ↦ follow_up_quote i
  | some QuoteStatus.viewed ↦ follow_up_quote i
  | some QuoteStatus.change_requested ↦ follow_up_quote i
  | _ ↦ stage_action o
]

abbrev pub appointment_action :
    CommercialOpportunityView → JourneyState → Option JourneyActionRecommendation
appointment_action o i = elim i.appointment_status [
  | none ↦ quote_action o i
  | some status ↦
      if is_below o.collected_cents i.appointment_deposit_required
      then recommendation NextActionType.request_deposit "Request the required appointment deposit."
          none false
      else elim status [
        | AppointmentStatus.tentative ↦
            recommendation NextActionType.confirm_appointment "Confirm the appointment." none false
        | AppointmentStatus.confirmed ↦
            recommendation NextActionType.service_scheduled "The appointment is scheduled."
              i.appointment_start_at false
        | _ ↦ quote_action o i
      ]
]

abbrev pub job_action :
    CommercialOpportunityView → JourneyState → Option JourneyActionRecommendation
job_action o i = elim i.job_status [
  | none ↦ appointment_action o i
  | some status ↦
      if is_below o.collected_cents i.job_deposit_required
      then recommendation NextActionType.request_deposit "Request the required job deposit." none
          false
      else elim status [
        | JobStatus.ready_to_schedule ↦
            recommendation NextActionType.schedule_job "Schedule the accepted job." none false
        | JobStatus.pending_deposit ↦
            recommendation NextActionType.schedule_job "Schedule the accepted job." none false
        | JobStatus.scheduled ↦
            recommendation NextActionType.service_scheduled "The job is scheduled." none false
        | JobStatus.in_progress ↦
            recommendation NextActionType.service_scheduled "The job is scheduled." none false
        | _ ↦ appointment_action o i
      ]
]

abbrev pub is_closed_won : ConversationStage → Bool
is_closed_won ConversationStage.closed_won = true
is_closed_won _ = false

abbrev pub is_awaiting_balance : ConversationStage → Bool
is_awaiting_balance ConversationStage.awaiting_balance = true
is_awaiting_balance _ = false

unfoldable pub action_of :
    CommercialOpportunityView → JourneyState → Option JourneyActionRecommendation
action_of o i =
    if is_lost o.lead_status || is_closed_won o.stage
    then none
    else if is_human_led i.conversation_mode
    then recommendation NextActionType.human_review "Review the customer conversation." none false
    else if is_awaiting_balance o.stage
    then recommendation NextActionType.collect_balance "Request the remaining balance." none false
    else job_action o i
