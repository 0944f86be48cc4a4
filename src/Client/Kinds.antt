-- ===== src/Client/Kinds.antt =====
-- The enumerations of src/domain/entities.ts.

pub data WorkflowType : Type 0 where
  appointment_service quote_job : WorkflowType

pub data BusinessKind : Type 0 where
  clinic auto_detailing home_services : BusinessKind

pub data KnowledgeTopic : Type 0 where
  opening_hours address service_description fixed_price price_range service_duration
        preparation_instructions payment_methods cancellation_policy deposit_policy service_area :
      KnowledgeTopic

pub data TeamRole : Type 0 where
  owner staff : TeamRole

pub data LeadStatus : Type 0 where
  new active qualified won lost archived : LeadStatus

pub data LeadSource : Type 0 where
  whats_app instagram website_form email manual import : LeadSource

pub data LeadPriority : Type 0 where
  normal high urgent : LeadPriority

pub data SalesObjection : Type 0 where
  price timing trust service_fit competitor other : SalesObjection

pub data OpportunityLostReason : Type 0 where
  customer_declined cancelled outside_service_area no_longer_interested quote_expired unavailable :
      OpportunityLostReason

pub data ConversationChannel : Type 0 where
  whats_app instagram website_form email manual : ConversationChannel

pub data ConversationMode : Type 0 where
  ai_active human_active paused closed : ConversationMode

pub data ConversationState : Type 0 where
  new_inquiry qualifying ready_to_book appointment_scheduled quote_in_progress quote_sent
        job_scheduled awaiting_payment complete :
      ConversationState

pub data ConversationStage : Type 0 where
  new_inquiry discovery qualification information_collection ready_to_book appointment_proposed
        awaiting_confirmation ready_for_quote quote_preparation quote_sent awaiting_deposit booked
        job_scheduled service_complete awaiting_balance closed_won closed_lost human_review :
      ConversationStage

pub data ConversationIntent : Type 0 where
  ask_business_info price_question service_info availability_request request_appointment
        request_quote payment_question reschedule_request cancellation_request provide_information
        complaint refund sensitive_question opt_out human_requested unsupported_request unknown :
      ConversationIntent

pub data MessageDirection : Type 0 where
  inbound outbound : MessageDirection

pub data MessageAuthor : Type 0 where
  customer business assistant system : MessageAuthor

pub data MessagePurpose : Type 0 where
  operational marketing : MessagePurpose

pub data NextActionType : Type 0 where
  reply_to_customer answer_question collect_information request_photos offer_appointment
        confirm_appointment follow_up_quote follow_up_customer prepare_quote verify_service_area
        review_payment_claim request_deposit schedule_job collect_balance human_review
        future_reactivation send_quote service_scheduled :
      NextActionType

pub data NextActionStatus : Type 0 where
  pending completed cancelled : NextActionStatus

pub data ActivityType : Type 0 where
  lead_created message_received message_sent next_action_changed handoff_started assistant_resumed
        consent_changed appointment_changed quote_changed job_changed payment_changed memory_changed
        follow_up_scheduled follow_up_cancelled assistant_tool_requested appointment_created
        appointment_rescheduled appointment_confirmed appointment_completed appointment_cancelled
        quote_created quote_sent quote_accepted quote_declined quote_expired job_created
        job_scheduled job_rescheduled job_completed job_cancelled deposit_collected
        balance_collected refund_recorded opportunity_won opportunity_lost opportunity_reopened
        revenue_attribution_verified reactivation_prepared owner_tool_executed :
      ActivityType

pub data AppointmentStatus : Type 0 where
  tentative confirmed cancelled completed no_show : AppointmentStatus

pub data Weekday : Type 0 where
  sunday monday tuesday wednesday thursday friday saturday : Weekday

pub data QuoteStatus : Type 0 where
  draft sent viewed change_requested accepted rejected expired : QuoteStatus

pub data JobStatus : Type 0 where
  pending_deposit ready_to_schedule scheduled in_progress completed cancelled : JobStatus

pub data PaymentKind : Type 0 where
  deposit balance refund : PaymentKind

pub data PaymentStatus : Type 0 where
  collected failed voided : PaymentStatus

pub data PaymentReferenceType : Type 0 where
  appointment quote job : PaymentReferenceType

pub data HandoffReason : Type 0 where
  sensitive_question legal_question complaint refund unusual_discount aggressive_or_confused
        low_confidence unsupported_knowledge human_requested conflicting_information safety_concern
        manual :
      HandoffReason

pub data CustomerFactKey : Type 0 where
  requested_service customer_type preferred_date preferred_time treatment_preference vehicle_make
        vehicle_model vehicle_year vehicle_condition photos_received requested_job location address
        job_details urgency access_considerations special_requirements :
      CustomerFactKey

pub data MemorySource : Type 0 where
  customer_message manual domain_state : MemorySource

pub data FollowUpScenario : Type 0 where
  price_inquiry booking_confirmation missing_information quote_response deposit_request
        outstanding_balance reactivation :
      FollowUpScenario

pub data FollowUpStatus : Type 0 where
  scheduled completed cancelled : FollowUpStatus

pub data FollowUpChannel : Type 0 where
  whats_app instagram email manual : FollowUpChannel

pub data FollowUpOwner : Type 0 where
  assistant human : FollowUpOwner

pub data FollowUpResult : Type 0 where
  pending sent response_received stopped failed : FollowUpResult

pub data FollowUpStopReason : Type 0 where
  customer_replied human_takeover opportunity_closed consent_blocked manual_override state_changed :
      FollowUpStopReason

pub data RevenueStage : Type 0 where
  potential booked completed collected refunded : RevenueStage

pub data RevenueAttributionKind : Type 0 where
  generated recovered protected reactivated : RevenueAttributionKind

pub data RevenueAttributionStatus : Type 0 where
  unattributed candidate verified rejected : RevenueAttributionStatus

-- The values of `Business.currency`, `ConsentRecord.source`, `HumanHandoff.startedBy` and
-- `FollowUpAttempt.result`.
pub data Currency : Type 0 where
  ils usd eur gbp : Currency

pub data ConsentSource : Type 0 where
  customer_message manual imported : ConsentSource

pub data StartedBy : Type 0 where
  assistant human : StartedBy

pub data AttemptResult : Type 0 where
  sent failed : AttemptResult
