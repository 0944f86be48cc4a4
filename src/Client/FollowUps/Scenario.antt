-- ===== src/Client/FollowUps/Scenario.antt =====
-- The scenarios of the follow-ups: `scenarioForDecision`, `scenarioForStage` and `followUpReason` of
-- src/application/conversation/FollowUpService.ts.
use closer_v.Prelude.{
  ℕ, ◌-◌, Bool, true, false, ◌==◌, Option, none, some, List, [], ◌∷◌, String, if◌then◌else◌,
}
use closer_v.Client.Kinds.{ConversationStage, FollowUpScenario}

pub data InternalReasonCode : Type 0 where
  price_question service_info availability_request booking_intent quote_request payment_question
        reschedule_request cancellation_request complaint refund_request medical_or_sensitive
        unsupported_request unsupported_pricing unsupported_policy low_confidence customer_confused
        customer_aggressive opt_out human_requested missing_required_information
        information_complete outside_service_area conflicting_information prompt_injection
        payment_claim_unverified :
      InternalReasonCode

-- The text of a scenario.
abbrev pub scenario_text : FollowUpScenario → String
scenario_text FollowUpScenario.price_inquiry = "PRICE_INQUIRY"
scenario_text FollowUpScenario.booking_confirmation = "BOOKING_CONFIRMATION"
scenario_text FollowUpScenario.missing_information = "MISSING_INFORMATION"
scenario_text FollowUpScenario.quote_response = "QUOTE_RESPONSE"
scenario_text FollowUpScenario.deposit_request = "DEPOSIT_REQUEST"
scenario_text FollowUpScenario.outstanding_balance = "OUTSTANDING_BALANCE"
scenario_text FollowUpScenario.reactivation = "REACTIVATION"

abbrev pub same_scenario : FollowUpScenario → FollowUpScenario → Bool
same_scenario FollowUpScenario.price_inquiry FollowUpScenario.price_inquiry = true
same_scenario FollowUpScenario.booking_confirmation FollowUpScenario.booking_confirmation = true
same_scenario FollowUpScenario.missing_information FollowUpScenario.missing_information = true
same_scenario FollowUpScenario.quote_response FollowUpScenario.quote_response = true
same_scenario FollowUpScenario.deposit_request FollowUpScenario.deposit_request = true
same_scenario FollowUpScenario.outstanding_balance FollowUpScenario.outstanding_balance = true
same_scenario FollowUpScenario.reactivation FollowUpScenario.reactivation = true
same_scenario _ _ = false

-- `cadence[step]`
abbrev pub step_at : ℕ → List ℕ → Option ℕ
step_at step [] = none
step_at step (hours ∷ later) = if step == 0 then some hours else step_at (step - 1) later

-- `followUpCadenceHours[scenario]?.[step]`
abbrev pub cadence_at : FollowUpScenario → ℕ → List (FollowUpScenario × List ℕ) → Option ℕ
cadence_at scenario step [] = none
cadence_at scenario step ((s, hours) ∷ cadences) =
    if same_scenario s scenario then step_at step hours else cadence_at scenario step cadences

abbrev pub scenario_for_stage : ConversationStage → Option FollowUpScenario
scenario_for_stage ConversationStage.quote_sent = some FollowUpScenario.quote_response
scenario_for_stage ConversationStage.awaiting_deposit = some FollowUpScenario.deposit_request
scenario_for_stage ConversationStage.awaiting_balance = some FollowUpScenario.outstanding_balance
scenario_for_stage ConversationStage.awaiting_confirmation =
    some FollowUpScenario.booking_confirmation
scenario_for_stage ConversationStage.information_collection =
    some FollowUpScenario.missing_information
scenario_for_stage _ = none

abbrev pub scenario_for_decision : InternalReasonCode → ConversationStage → Option FollowUpScenario
scenario_for_decision InternalReasonCode.price_question stage = some FollowUpScenario.price_inquiry
scenario_for_decision InternalReasonCode.booking_intent stage =
    some FollowUpScenario.booking_confirmation
scenario_for_decision InternalReasonCode.missing_required_information stage =
    some FollowUpScenario.missing_information
scenario_for_decision _ stage = scenario_for_stage stage

abbrev pub follow_up_reason : FollowUpScenario → String
follow_up_reason FollowUpScenario.price_inquiry =
    "Check whether the customer still needs help after the price question."
follow_up_reason FollowUpScenario.booking_confirmation =
    "Check whether the customer wants to confirm the booking."
follow_up_reason FollowUpScenario.missing_information =
    "Ask for the remaining detail needed to move forward."
follow_up_reason FollowUpScenario.quote_response =
    "Follow up on the quote if the customer has not replied."
follow_up_reason FollowUpScenario.deposit_request =
    "Remind the customer about the required deposit."
follow_up_reason FollowUpScenario.outstanding_balance =
    "Request the remaining payment for completed work."
follow_up_reason FollowUpScenario.reactivation =
    "Reconnect with an eligible past customer after owner approval."
