-- ===== src/Recovery.antt =====
-- The policy that decides what to do about an opportunity at risk
-- (server/application/recoveryEngine.ts). It is a pure function of the opportunity and of what was
-- observed.
pub mod Policy
use closer_v.Prelude.{
  ◌+◌, ◌*◌, ℕ, String, Bool, true, false, not, ◌&&◌, ◌||◌, Option, none, some, leb, ltb,
  if◌then◌else◌,
}
use closer_v.Domain.Values.{
  Key, Instant, Cents, hour, OpportunityStatus, RecoveryState, OpportunityAutonomyLevel,
  RecoveryPlayType, RecoveryActionStatus, NextBestActionKind, Channel, ExecutionState,
  SuppressionReason, send_sms, wait, request_human, attempt_booking, stop_recovery,
  ask_qualification,
}
use closer_v.Domain.Opportunity.{
  OpportunityRecord, OpportunityObservation, NextBestAction, RecoveryDecision,
}
use closer_v.Scoring.{score, is_missed_call, is_do_not_contact}

abbrev pub recovery_policy_version : String
recovery_policy_version = "hvac-recovery-v1"

abbrev pub high_value_approval_threshold_cents : Cents
high_value_approval_threshold_cents = 1000000

abbrev pub is_won : OpportunityStatus → Bool
is_won OpportunityStatus.won = true
is_won _ = false

abbrev pub is_lost : OpportunityStatus → Bool
is_lost OpportunityStatus.lost = true
is_lost _ = false

abbrev pub is_estimate : OpportunityStatus → Bool
is_estimate OpportunityStatus.estimate = true
is_estimate _ = false

abbrev pub is_qualified : OpportunityStatus → Bool
is_qualified OpportunityStatus.qualified = true
is_qualified _ = false

-- `['NEW', 'CONTACTING'].includes(status)`
abbrev pub is_fresh : OpportunityStatus → Bool
is_fresh OpportunityStatus.new = true
is_fresh OpportunityStatus.contacting = true
is_fresh _ = false

-- `['NEW', 'CONTACTING', 'ENGAGED', 'QUALIFIED'].includes(status)`
abbrev pub is_lead : OpportunityStatus → Bool
is_lead OpportunityStatus.new = true
is_lead OpportunityStatus.contacting = true
is_lead OpportunityStatus.engaged = true
is_lead OpportunityStatus.qualified = true
is_lead _ = false

-- `['LOST', 'SNOOZED'].includes(status)`
abbrev pub is_dormant : OpportunityStatus → Bool
is_dormant OpportunityStatus.lost = true
is_dormant OpportunityStatus.snoozed = true
is_dormant _ = false

abbrev pub is_running : RecoveryState → Bool
is_running RecoveryState.recovery_active = true
is_running RecoveryState.waiting_for_customer = true
is_running _ = false

unfoldable pub suppression : OpportunityObservation → Option SuppressionReason
suppression o =
    if o.opted_out || not o.operational_communication_allowed
    then some SuppressionReason.contact_suppressed
    else if is_do_not_contact o.status
    then some SuppressionReason.do_not_contact
    else if is_won o.status
    then some SuppressionReason.opportunity_won
    else if o.has_explicit_rejection && is_lost o.status
    then some SuppressionReason.explicit_rejection
    else if o.has_active_handoff || o.is_human_required
    then some SuppressionReason.human_takeover_active
    else if not o.within_contact_window
    then some SuppressionReason.outside_contact_window
    else if is_running o.recovery_state
    then some SuppressionReason.recovery_already_active
    else none

unfoldable pub choose_play : OpportunityObservation → Option RecoveryPlayType
choose_play o =
    if is_missed_call o.source && is_fresh o.status
    then some RecoveryPlayType.missed_call_recovery
    else if o.has_estimate && is_estimate o.status
    then some RecoveryPlayType.unsold_estimate_recovery
    else if is_dormant o.status
    then some RecoveryPlayType.old_lead_reactivation
    else if is_lead o.status
    then some RecoveryPlayType.new_lead_recovery
    else none

abbrev pub is_autopilot : OpportunityAutonomyLevel → Bool
is_autopilot OpportunityAutonomyLevel.autopilot = true
is_autopilot _ = false

-- `estimatedValueCents ?? 0`
abbrev pub value_or_zero : Option Cents → Cents
value_or_zero none = 0
value_or_zero (some v) = v

unfoldable pub requires_approval : OpportunityRecord → Bool
requires_approval opportunity =
    not (is_autopilot opportunity.autonomy_level)
    || leb high_value_approval_threshold_cents (value_or_zero opportunity.estimated_value_cents)

-- The text of a suppression reason, `suppressionReason ?? 'NO_RECOVERY_PLAY'`.
abbrev pub reason_text : Option SuppressionReason → String
reason_text none = "NO_RECOVERY_PLAY"
reason_text (some SuppressionReason.contact_suppressed) = "CONTACT_SUPPRESSED"
reason_text (some SuppressionReason.do_not_contact) = "DO_NOT_CONTACT"
reason_text (some SuppressionReason.opportunity_won) = "OPPORTUNITY_WON"
reason_text (some SuppressionReason.explicit_rejection) = "EXPLICIT_REJECTION"
reason_text (some SuppressionReason.human_takeover_active) = "HUMAN_TAKEOVER_ACTIVE"
reason_text (some SuppressionReason.outside_contact_window) = "OUTSIDE_CONTACT_WINDOW"
reason_text (some SuppressionReason.recovery_already_active) = "RECOVERY_ALREADY_ACTIVE"

abbrev pub is_takeover : Option SuppressionReason → Bool
is_takeover (some SuppressionReason.human_takeover_active) = true
is_takeover _ = false

abbrev pub add_hours : Instant → ℕ → Instant
add_hours value hours = value + hours * hour

abbrev pub action :
    NextBestActionKind → String → String → Option Channel → Bool → Option Instant → NextBestAction
action kind reason_code label channel requires_approval_value due_at = record {
  kind = kind;
  reason_code = reason_code;
  label = label;
  channel = channel;
  requires_approval = requires_approval_value;
  due_at = due_at;
}

unfoldable pub next_action :
    OpportunityRecord
    → OpportunityObservation
    → ℕ
    → Bool
    → Option SuppressionReason
    → NextBestAction
unfolding requires_approval
next_action opportunity o recovery_score eligible suppression_reason =
    if is_takeover suppression_reason
    then action request_human "HUMAN_REVIEW_REQUIRED" "Review this opportunity personally" none
        false (some o.now)
    else if not eligible
    then action stop_recovery (reason_text suppression_reason)
        "Do not send an automated recovery message" none false none
    else if o.has_booking_request || is_qualified opportunity.status
    then action attempt_booking "READY_TO_BOOK" "Offer a validated appointment time" none true
        (some o.now)
    else if not o.has_explicit_service_intent
    then action ask_qualification "SERVICE_NEED_UNKNOWN" "Ask what HVAC service is needed"
        (some Channel.sms) (requires_approval opportunity) (some o.now)
    else if ltb recovery_score 30
    then action wait "LOW_RECOVERY_PROBABILITY" "Wait before another recovery attempt" none false
        (some (add_hours o.now 24))
    else if o.has_estimate
    then action send_sms "UNSOLD_ESTIMATE_FOLLOW_UP" "Follow up with estimate context"
        (some Channel.sms) (requires_approval opportunity) (some o.now)
    else action send_sms "TIMELY_RECOVERY_FOLLOW_UP"
        "Contact the customer while intent is still fresh" (some Channel.sms)
        (requires_approval opportunity) (some o.now)

abbrev pub is_none {ℓ} : {A : Type ℓ} → Option A → Bool
is_none none = true
is_none (some x) = false

unfoldable pub evaluate : OpportunityRecord → OpportunityObservation → Key → RecoveryDecision
evaluate opportunity o operation_key =
    let scores = score o in
    let reason = suppression o in
    let play = choose_play o in
    let eligible = is_none reason && not (is_none play) in
    record {
      opportunity_id = opportunity.id;
      play_type = play;
      eligible = eligible;
      suppression_reason = reason;
      scores = scores;
      next_best_action = next_action opportunity o scores.recovery.value eligible reason;
      policy_version = recovery_policy_version;
      idempotency_key = operation_key;
      decided_at = o.now;
    }

abbrev pub is_request_human : NextBestActionKind → Bool
is_request_human request_human = true
is_request_human _ = false

-- `['OBSERVE', 'SUGGEST'].includes(autonomyLevel)`
abbrev pub is_passive : OpportunityAutonomyLevel → Bool
is_passive OpportunityAutonomyLevel.observe = true
is_passive OpportunityAutonomyLevel.suggest = true
is_passive _ = false

unfoldable pub recovery_action_status : OpportunityRecord → RecoveryDecision → RecoveryActionStatus
recovery_action_status opportunity decision =
    if is_request_human decision.next_best_action.kind
    then RecoveryActionStatus.human_required
    else if not decision.eligible
    then RecoveryActionStatus.suppressed
    else if is_passive opportunity.autonomy_level
    then RecoveryActionStatus.pending
    else if decision.next_best_action.requires_approval
    then RecoveryActionStatus.waiting_approval
    else RecoveryActionStatus.ready

-- The autonomy levels of `recoveryDecisionExecutionState`, once the decision is eligible.
abbrev pub execution_state_at : OpportunityAutonomyLevel → Bool → ExecutionState
execution_state_at OpportunityAutonomyLevel.observe approval = ExecutionState.observed
execution_state_at OpportunityAutonomyLevel.suggest approval = ExecutionState.suggested
execution_state_at level approval =
    if approval then ExecutionState.pending_approval else ExecutionState.suggested

unfoldable pub recovery_decision_execution_state :
    OpportunityRecord → RecoveryDecision → ExecutionState
recovery_decision_execution_state opportunity decision =
    if not decision.eligible
    then ExecutionState.suppressed
    else execution_state_at opportunity.autonomy_level decision.next_best_action.requires_approval

abbrev pub is_human_required : RecoveryActionStatus → Bool
is_human_required RecoveryActionStatus.human_required = true
is_human_required _ = false

abbrev pub is_ready : RecoveryActionStatus → Bool
is_ready RecoveryActionStatus.ready = true
is_ready _ = false

-- The state that a decision which is not eligible leads to, by its reason.
abbrev pub suppressed_state : RecoveryState → Option SuppressionReason → RecoveryState
suppressed_state current (some SuppressionReason.recovery_already_active) = current
suppressed_state current (some SuppressionReason.outside_contact_window) = RecoveryState.at_risk
suppressed_state current (some SuppressionReason.opportunity_won) = RecoveryState.not_at_risk
suppressed_state current (some SuppressionReason.contact_suppressed) = RecoveryState.stopped
suppressed_state current (some SuppressionReason.do_not_contact) = RecoveryState.stopped
suppressed_state current (some SuppressionReason.explicit_rejection) = RecoveryState.stopped
suppressed_state current _ = current

unfoldable pub recovery_state_after_decision : OpportunityRecord → RecoveryDecision → RecoveryState
unfolding recovery_action_status
recovery_state_after_decision opportunity decision =
    let action_status = recovery_action_status opportunity decision in
    if is_human_required action_status
    then RecoveryState.human_required
    else if decision.eligible
    then if is_ready action_status then RecoveryState.recovery_active else RecoveryState.at_risk
    else suppressed_state opportunity.recovery_state decision.suppression_reason

abbrev pub is_wait : NextBestActionKind → Bool
is_wait wait = true
is_wait _ = false

unfoldable pub recovery_action_valid_until : RecoveryDecision → Option Instant
recovery_action_valid_until decision =
    if not decision.eligible || is_wait decision.next_best_action.kind
    then decision.next_best_action.due_at
    else some (add_hours decision.decided_at 24)
