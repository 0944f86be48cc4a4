-- ===== src/Domain/Transitions.antt =====
-- `assertOpportunityTransition` and `assertOpportunityState` of server/domain/opportunity.ts.
pub mod Paths
use closer_v.Prelude.{Bool, true, false, not, ◌&&◌, ◌||◌, List, [], ◌∷◌, any, if◌then◌else◌}
use closer_v.Domain.Values.{
  OpportunityStatus, RecoveryState, new, contacting, engaged, qualified, booked, estimate, won,
  lost, snoozed, do_not_contact, is_closed,
}

-- `from === to`
abbrev pub same_status : OpportunityStatus → OpportunityStatus → Bool
same_status new new = true
same_status contacting contacting = true
same_status engaged engaged = true
same_status qualified qualified = true
same_status booked booked = true
same_status estimate estimate = true
same_status won won = true
same_status lost lost = true
same_status snoozed snoozed = true
same_status do_not_contact do_not_contact = true
same_status _ _ = false

unfoldable pub allowed_status_transitions : OpportunityStatus → List OpportunityStatus
allowed_status_transitions new =
    contacting ∷ engaged ∷ qualified ∷ booked ∷ snoozed ∷ lost ∷ do_not_contact ∷ []
allowed_status_transitions contacting =
    engaged ∷ qualified ∷ booked ∷ estimate ∷ snoozed ∷ lost ∷ do_not_contact ∷ []
allowed_status_transitions engaged =
    contacting ∷ qualified ∷ booked ∷ estimate ∷ snoozed ∷ lost ∷ do_not_contact ∷ []
allowed_status_transitions qualified =
    contacting ∷ booked ∷ estimate ∷ snoozed ∷ lost ∷ do_not_contact ∷ []
allowed_status_transitions booked = engaged ∷ estimate ∷ won ∷ lost ∷ snoozed ∷ do_not_contact ∷ []
allowed_status_transitions estimate =
    contacting ∷ engaged ∷ booked ∷ won ∷ lost ∷ snoozed ∷ do_not_contact ∷ []
allowed_status_transitions won = []
allowed_status_transitions lost = contacting ∷ engaged ∷ qualified ∷ snoozed ∷ do_not_contact ∷ []
allowed_status_transitions snoozed = contacting ∷ engaged ∷ qualified ∷ lost ∷ do_not_contact ∷ []
allowed_status_transitions do_not_contact = []

-- What the two assertions throw.
pub data TransitionError : Type 0 where
  fine : TransitionError
  invalid_opportunity_transition : OpportunityStatus → OpportunityStatus → TransitionError
  won_opportunity_cannot_remain_at_risk : TransitionError
  do_not_contact_requires_stopped_recovery : TransitionError
  closed_opportunity_cannot_run_recovery : TransitionError

unfoldable pub assert_opportunity_transition :
    OpportunityStatus → OpportunityStatus → TransitionError
unfolding allowed_status_transitions
assert_opportunity_transition from to =
    if same_status from to
    then fine
    else if any (same_status to) (allowed_status_transitions from)
    then fine
    else invalid_opportunity_transition from to

abbrev pub is_won : OpportunityStatus → Bool
is_won won = true
is_won _ = false

abbrev pub is_do_not_contact : OpportunityStatus → Bool
is_do_not_contact do_not_contact = true
is_do_not_contact _ = false

-- `['RECOVERED', 'NOT_AT_RISK'].includes(recoveryState)`
abbrev pub is_settled : RecoveryState → Bool
is_settled RecoveryState.recovered = true
is_settled RecoveryState.not_at_risk = true
is_settled _ = false

abbrev pub is_stopped : RecoveryState → Bool
is_stopped RecoveryState.stopped = true
is_stopped _ = false

abbrev pub is_recovery_active : RecoveryState → Bool
is_recovery_active RecoveryState.recovery_active = true
is_recovery_active _ = false

unfoldable pub assert_opportunity_state : OpportunityStatus → RecoveryState → TransitionError
assert_opportunity_state status recovery_state =
    if is_won status && not (is_settled recovery_state)
    then won_opportunity_cannot_remain_at_risk
    else if is_do_not_contact status && not (is_stopped recovery_state)
    then do_not_contact_requires_stopped_recovery
    else if is_closed status && is_recovery_active recovery_state
    then closed_opportunity_cannot_run_recovery
    else fine
