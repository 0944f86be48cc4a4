-- ===== src/Examples/Rules.antt =====
-- The rules on opportunities at concrete inputs: the states, the scores and the policy.
use closer_v.Prelude.{◌≡◌, refl, ◌↔◌, ◌⊎◌, inl, ◌<◌, true, [], ◌∷◌, any, arith}
use closer_v.Prelude.Int.{pos, ◌+ℤ◌}
use closer_v.Domain.Values.{
  OpportunityStatus, RecoveryState, OpportunityAutonomyLevel, NextBestActionKind,
}
use closer_v.Domain.Opportunity.{OpportunityRecord}
use closer_v.Domain.Transitions.{
  fine, assert_opportunity_transition, assert_opportunity_state,
  won_opportunity_cannot_remain_at_risk,
}
use closer_v.Domain.Transitions.Paths.{stay, go, is_sellable, closed_absorbs, won_needs_booking}
use closer_v.Scoring.{score}
use closer_v.Scoring.Explained.{
  Explains, intent_points, revenue_points, recovery_points, urgency_points, score_explained,
}
use closer_v.Recovery.{
  evaluate, suppression, choose_play, next_action, recovery_action_status,
  recovery_state_after_decision, high_value_approval_threshold_cents, value_or_zero,
}
use closer_v.Recovery.Policy.{
  MayContact, eligible_iff, outreach-MayContact, ready_needs_autopilot, state_after-fine,
  won_opt_out_inconsistent,
}
use closer_v.Examples.Data.{opportunity, quiet_observation, opted_out_observation}

abbrev piloted : OpportunityRecord
piloted =
    opportunity OpportunityStatus.engaged RecoveryState.at_risk OpportunityAutonomyLevel.autopilot

abbrev won : OpportunityRecord
won = opportunity OpportunityStatus.won RecoveryState.recovered OpportunityAutonomyLevel.autopilot

abbrev kept : OpportunityStatus
kept = OpportunityStatus.won

won_needs_booking_example :
    any is_sellable (OpportunityStatus.engaged ∷ OpportunityStatus.booked ∷ []) ≡ true
unfolding assert_opportunity_transition
won_needs_booking_example =
    won_needs_booking {s = OpportunityStatus.engaged} {u = kept}
      (go {t = OpportunityStatus.booked} refl (go refl stay)) refl (ground arith)

closed_absorbs_example : OpportunityStatus.won ≡ kept
unfolding assert_opportunity_transition
closed_absorbs_example =
    closed_absorbs {s = OpportunityStatus.won} {u = kept} refl (go {t = kept} refl stay)

score_explained_example :
    Explains (intent_points quiet_observation) (pos 0) (score quiet_observation).intent
    × Explains revenue_points (pos 10) (score quiet_observation).revenue
    × Explains recovery_points (pos 35) (score quiet_observation).recovery
    × Explains urgency_points (pos 10) (score quiet_observation).urgency
score_explained_example = score_explained quiet_observation

eligible_iff_example :
    ((evaluate piloted quiet_observation "k").eligible ≡ true) ↔ MayContact quiet_observation
eligible_iff_example = eligible_iff piloted quiet_observation "k"

outreach-MayContact_example : MayContact quiet_observation
unfolding evaluate suppression choose_play next_action score ◌+ℤ◌
outreach-MayContact_example = outreach-MayContact piloted quiet_observation "k" (inl (ground arith))

ready_needs_autopilot_example :
    MayContact quiet_observation
    × (((evaluate piloted quiet_observation "k").next_best_action.kind ≡ NextBestActionKind.wait)
        ⊎ (piloted.autonomy_level ≡ OpportunityAutonomyLevel.autopilot)
          × (value_or_zero piloted.estimated_value_cents < high_value_approval_threshold_cents))
unfolding evaluate suppression choose_play next_action score recovery_action_status ◌+ℤ◌
ready_needs_autopilot_example = ready_needs_autopilot piloted quiet_observation "k" refl

state_after-fine_example :
    assert_opportunity_state OpportunityStatus.engaged
      (recovery_state_after_decision piloted (evaluate piloted quiet_observation "k"))
    ≡ fine
unfolding assert_opportunity_state
state_after-fine_example =
    state_after-fine piloted quiet_observation "k" refl refl (λ e. absurd (cc))

won_opt_out_inconsistent_example :
    assert_opportunity_state OpportunityStatus.won
      (recovery_state_after_decision won (evaluate won opted_out_observation "k"))
    ≡ won_opportunity_cannot_remain_at_risk
won_opt_out_inconsistent_example = won_opt_out_inconsistent won opted_out_observation "k" refl refl
