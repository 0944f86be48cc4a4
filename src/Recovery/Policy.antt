-- ===== src/Recovery/Policy.antt =====
-- What the recovery policy guarantees.
use closer_v.Prelude.{
  ◌+◌, ◌*◌, ◌<◌, ◌≡◌, refl, ◌⊎◌, inl, inr, ℕ, Bool-cases, ◌≢◌, ◌↔◌, Bool, true, false, Option, none,
  some, arith,
}
use closer_v.Domain.Values.{
  Key, Instant, hour, OpportunityStatus, RecoveryState, OpportunityAutonomyLevel,
  RecoveryActionStatus, NextBestActionKind, SuppressionReason, is_closed,
}
use closer_v.Domain.Opportunity.{OpportunityRecord, OpportunityObservation, RecoveryDecision}
use closer_v.Domain.Transitions.{
  fine, won_opportunity_cannot_remain_at_risk, assert_opportunity_state,
}
use closer_v.Recovery.{
  suppression, choose_play, next_action, is_wait, add_hours, is_running, value_or_zero,
  high_value_approval_threshold_cents, evaluate, recovery_action_status,
  recovery_state_after_decision, recovery_action_valid_until,
}

-- When the engine takes up an opportunity: consent, no human at work, the contact window, an open
-- status with a play for it, and no recovery that runs already.
pub record MayContact (o : OpportunityObservation) : Type 0 where
  pub consent : o.opted_out ≡ false
  pub allowed : o.operational_communication_allowed ≡ true
  pub not_closed : is_closed o.status ≡ false
  pub not_booked : o.status ≢ OpportunityStatus.booked
  pub quoted : o.status ≡ OpportunityStatus.estimate → o.has_estimate ≡ true
  pub not_rejected : o.status ≡ OpportunityStatus.lost → o.has_explicit_rejection ≡ false
  pub no_handoff : o.has_active_handoff ≡ false
  pub no_human : o.is_human_required ≡ false
  pub in_window : o.within_contact_window ≡ true
  pub not_running : is_running o.recovery_state ≡ false

MayContact-to :
    (p : OpportunityRecord) (o : OpportunityObservation) (k : Key)
    → (evaluate p o k).eligible ≡ true
    → MayContact o
unfolding evaluate suppression choose_play
MayContact-to p o k h = ground arith

MayContact-from :
    (p : OpportunityRecord) (o : OpportunityObservation) (k : Key)
    → MayContact o
    → (evaluate p o k).eligible ≡ true
unfolding evaluate suppression choose_play
MayContact-from p o k h = ground arith

-- A decision is eligible exactly when `MayContact` holds of what was observed: consent, no human
-- at work, the contact window, an open status with a play for it, and no recovery that runs
-- already. How often the customer was tried before is not among the conditions.
pub eligible_iff :
    (p : OpportunityRecord) (o : OpportunityObservation) (k : Key)
    → ((evaluate p o k).eligible ≡ true) ↔ MayContact o
eligible_iff p o k = (MayContact-to p o k, MayContact-from p o k)

module _ (p : OpportunityRecord) (o : OpportunityObservation) where
  idle_if_ineligible :
      (n : ℕ) (e : Bool) (r : Option SuppressionReason)
      → e ≡ false
      → ((next_action p o n e r).channel ≡ none)
        × ((next_action p o n e r).kind ≢ NextBestActionKind.attempt_booking)
  unfolding next_action
  idle_if_ineligible n e r h = ground arith

  approval_waived :
      (n : ℕ) (e : Bool) (r : Option SuppressionReason)
      → e ≡ true
      → (next_action p o n e r).kind ≢ NextBestActionKind.request_human
      → (next_action p o n e r).requires_approval ≡ false
      → ((next_action p o n e r).kind ≡ NextBestActionKind.wait)
        ⊎ (p.autonomy_level ≡ OpportunityAutonomyLevel.autopilot)
          × (value_or_zero p.estimated_value_cents < high_value_approval_threshold_cents)
  unfolding next_action
  approval_waived n e r h k a = ground (arith, k)

  due_in_time :
      (n : ℕ) (e : Bool) (r : Option SuppressionReason)
      → e ≡ true
      → r ≡ none
      → ((is_wait (next_action p o n e r).kind ≡ true)
          × ((next_action p o n e r).due_at ≡ some (o.now + 24 * hour)))
        ⊎ (is_wait (next_action p o n e r).kind ≡ false)
          × ((next_action p o n e r).due_at ≡ some o.now)
  unfolding next_action
  due_in_time n e r h k = ground arith

ready_parts :
    (p : OpportunityRecord) (d : RecoveryDecision)
    → recovery_action_status p d ≡ RecoveryActionStatus.ready
    → (d.eligible ≡ true)
      × (d.next_best_action.kind ≢ NextBestActionKind.request_human)
      × (d.next_best_action.requires_approval ≡ false)
unfolding recovery_action_status
ready_parts p d h = ground arith

eligible-reason :
    (p : OpportunityRecord) (o : OpportunityObservation) (k : Key)
    → (evaluate p o k).eligible ≡ true
    → suppression o ≡ none
unfolding evaluate
eligible-reason p o k h = ground arith

valid_until_parts :
    (d : RecoveryDecision) (now later : Instant)
    → d.eligible ≡ true
    → add_hours d.decided_at 24 ≡ later
    → ((is_wait d.next_best_action.kind ≡ true) × (d.next_best_action.due_at ≡ some later))
      ⊎ (is_wait d.next_best_action.kind ≡ false) × (d.next_best_action.due_at ≡ some now)
    → (recovery_action_valid_until d ≡ some later)
      × ((d.next_best_action.due_at ≡ some now) ⊎ (d.next_best_action.due_at ≡ some later))
unfolding recovery_action_valid_until
valid_until_parts d now later e t h = ground arith

-- Nothing is proposed over a channel, and no booking is attempted, unless contact is allowed.
pub outreach-MayContact :
    (p : OpportunityRecord) (o : OpportunityObservation) (k : Key)
    → ((evaluate p o k).next_best_action.channel ≢ none)
      ⊎ ((evaluate p o k).next_best_action.kind ≡ NextBestActionKind.attempt_booking)
    → MayContact o
unfolding evaluate
outreach-MayContact p o k h = elim (Bool-cases (evaluate p o k).eligible) [
  | inl e ↦ MayContact-to p o k e
  | inr e ↦
      let (quiet, idle) = idle_if_ineligible p o _ _ _ e in
      absurd (elim h [ inl c ↦ c quiet | inr b ↦ idle b ])
]

-- An action that is ready to run without an owner's approval is either a pause, or the opportunity
-- is on autopilot and worth less than the approval threshold; in both cases contact is allowed.
pub ready_needs_autopilot :
    (p : OpportunityRecord) (o : OpportunityObservation) (k : Key)
    → recovery_action_status p (evaluate p o k) ≡ RecoveryActionStatus.ready
    → MayContact o
      × (((evaluate p o k).next_best_action.kind ≡ NextBestActionKind.wait)
          ⊎ (p.autonomy_level ≡ OpportunityAutonomyLevel.autopilot)
            × (value_or_zero p.estimated_value_cents < high_value_approval_threshold_cents))
unfolding evaluate
ready_needs_autopilot p o k h =
    let (e, n, a) = ready_parts p (evaluate p o k) h in
    (MayContact-to p o k e, approval_waived p o _ _ _ e n a)

-- While a human has taken over, the decision asks for the human and the opportunity waits for one,
-- unless the customer opted out or may not be contacted, the status is WON or DO_NOT_CONTACT, or
-- the opportunity was lost by an explicit rejection.
pub takeover_requests_human :
    (p : OpportunityRecord) (o : OpportunityObservation) (k : Key)
    → o.opted_out ≡ false
    → o.operational_communication_allowed ≡ true
    → is_closed o.status ≡ false
    → (o.status ≡ OpportunityStatus.lost → o.has_explicit_rejection ≡ false)
    → (o.has_active_handoff ≡ true) ⊎ (o.is_human_required ≡ true)
    → ((evaluate p o k).next_best_action.kind ≡ NextBestActionKind.request_human)
      × (recovery_action_status p (evaluate p o k) ≡ RecoveryActionStatus.human_required)
      × (recovery_state_after_decision p (evaluate p o k) ≡ RecoveryState.human_required)
unfolding evaluate suppression next_action recovery_action_status recovery_state_after_decision
takeover_requests_human p o k consent allowed open_status kept human = ground arith

-- The decision on an opportunity, whose status is the one observed, keeps its status and recovery
-- state consistent, unless it is won and its customer may not be contacted.
pub state_after-fine :
    (p : OpportunityRecord) (o : OpportunityObservation) (k : Key)
    → o.status ≡ p.status
    → assert_opportunity_state p.status p.recovery_state ≡ fine
    → (p.status ≡ OpportunityStatus.won
        → (o.opted_out ≡ false) × (o.operational_communication_allowed ≡ true))
    → assert_opportunity_state p.status (recovery_state_after_decision p (evaluate p o k)) ≡ fine
unfolding evaluate suppression next_action recovery_state_after_decision assert_opportunity_state
state_after-fine p o k same valid consent = ground arith

-- Evaluating a won opportunity whose customer has opted out leads to a recovery state that
-- `assertOpportunityState` refuses for it.
pub won_opt_out_inconsistent :
    (p : OpportunityRecord) (o : OpportunityObservation) (k : Key)
    → p.status ≡ OpportunityStatus.won
    → o.opted_out ≡ true
    → assert_opportunity_state p.status (recovery_state_after_decision p (evaluate p o k))
      ≡ won_opportunity_cannot_remain_at_risk
unfolding evaluate suppression next_action recovery_state_after_decision assert_opportunity_state
won_opt_out_inconsistent p o k e out = ground arith

-- An eligible decision stays valid for exactly a day, and its action is due at once or at the end
-- of that day.
pub eligible_valid_one_day :
    (p : OpportunityRecord) (o : OpportunityObservation) (k : Key)
    → (evaluate p o k).eligible ≡ true
    → (recovery_action_valid_until (evaluate p o k) ≡ some (o.now + 24 * hour))
      × (((evaluate p o k).next_best_action.due_at ≡ some o.now)
          ⊎ ((evaluate p o k).next_best_action.due_at ≡ some (o.now + 24 * hour)))
unfolding evaluate
eligible_valid_one_day p o k h =
    valid_until_parts (evaluate p o k) o.now (o.now + 24 * hour) h refl
      (due_in_time p o _ _ _ h (eligible-reason p o k h))
