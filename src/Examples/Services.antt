-- ===== src/Examples/Services.antt =====
-- The theorems on the browser application and on the worker, at the small database and store.
use closer_v.Prelude.{
  ℕ, ◌+◌, ◌-◌, ◌*◌, ◌≤◌, ◌<◌, false, true, ◌≡◌, refl, ◌↔◌, none, some, List, [], ◌∷◌, All, arith,
  ltb, if◌then◌else◌,
}
use closer_v.Prelude.Int.{pos, ◌+ℤ◌}
use closer_v.Domain.Values.{Uuid, Key, Instant, TimeText}
use closer_v.Client.Kinds.{NextActionType, AttemptResult, FollowUpStopReason, OpportunityLostReason}
use closer_v.Client.Entities.{NextAction, Appointment, Lead, ScheduledFollowUp}
use closer_v.Client.Rules.{
  QuoteTotals, passed, max_safe_integer, remaining_balance, calculate_quote_totals,
}
use closer_v.Client.Rules.Totals.{IsQuotable, gross, calculate_quote_totals_iff}
use closer_v.Client.Repository.{get, save, remove, list}
use closer_v.Client.Repository.Refinement.{IsKeyed, lookup, changed, repository_refines_map}
use closer_v.Client.Database.{
  save_in, appointment_entity, lead_entity, payment_entity, revenue_event_entity,
  business_settings_entity, scheduled_follow_up_entity,
}
use closer_v.Client.Text.{trim}
use closer_v.Client.Stage.{infer}
use closer_v.Client.Journey.Stages.{is_lost}
use closer_v.Client.Journey.View.{JourneyReconciliation}
use closer_v.Client.Journey.Evaluate.{evaluate_lead, evaluate}
use closer_v.Client.Journey.Agreement.{context_of, infer_agrees}
use closer_v.Client.Journey.Closing.{IsPaid, evaluate-IsPaid}
use closer_v.Client.Attribution.{verify, summarize}
use closer_v.Client.Attribution.Evidence.{AllEvidenced, verify-is_verified, verify-AllEvidenced}
use closer_v.Client.Attribution.Summary.{summarize-net_cents}
use closer_v.Client.FollowUps.Schedule.{schedule}
use closer_v.Client.FollowUps.Progress.{
  save_each, complete_for_customer_response, cancel_pending, record_attempt, attempted,
}
use closer_v.Client.FollowUps.Single.{IsSingle}
use closer_v.Client.FollowUps.Kept.{service-IsSingle}
use closer_v.Client.FollowUps.Attempts.{record_attempt_once}
use closer_v.Client.FollowUps.Silence.{waits, conversation_silenced}
use closer_v.Client.Reactivation.{ReactivationCandidate, candidates_of, list_candidates}
use closer_v.Client.Reactivation.Consent.{IsBacked, list_candidates-IsBacked}
use closer_v.Client.Timeline.{record_activity}
use closer_v.Client.Timeline.Unique.{IsUnique, record_activity-IsUnique}
use closer_v.Client.Leads.{
  lost_as, save_actions, clear_pending_actions, end_lost, close_open, close_opportunity_lost,
}
use closer_v.Client.Journey.View.{JourneyActionRecommendation}
use closer_v.Client.NextActions.{new_action}
use closer_v.Client.Leads.Closed.{close_opportunity_lost-found}
use closer_v.Worker.{Worker, Reading, SentEntry, mock_send, run_cycles}
use closer_v.Worker.Due.{count_due}
use closer_v.Worker.Drain.{run_cycles-count_due}
use closer_v.Examples.Data.{queued_store}
use closer_v.Examples.Client.{
  lead, talk, visit, revenue, settings, waiting, database, lost_database, knowledge,
  attribution_input, follow_up_input, activity_input, item,
}

abbrev worker : Worker
worker = record { worker_id = "worker-1"; lease_milliseconds = 30000 }

abbrev attempt_key : Uuid → ℕ → Key
attempt_key id n = "attempt"

abbrev nothing_sent : List SentEntry
nothing_sent = []

-- Milliseconds after ten o'clock, to the tenth of a minute.
abbrev clock_text : Instant → TimeText
clock_text n =
    if ltb n 6000
    then "2026-03-02T10:01:00.000Z"
    else if ltb n 12000
    then "2026-03-02T10:01:06.000Z"
    else "2026-03-02T10:05:00.000Z"

abbrev cycles : List Reading
cycles = record { now = 0; at = 20 } ∷ record { now = 6000; at = 6020 } ∷ []

run_cycles-count_due_example :
    count_due
      (clock_text 0)
      (run_cycles attempt_key mock_send clock_text cycles worker queued_store
        nothing_sent).0.follow_ups
    ≡ 0
run_cycles-count_due_example =
    run_cycles-count_due attempt_key mock_send clock_text worker (clock_text 0) (clock_text 6000)
      cycles queued_store nothing_sent refl
      (
        record { begun = refl; over = refl; leased = refl; retried = refl },
        (record { begun = refl; over = refl; leased = refl; retried = refl }, tt),
      )
      (omega arith)

abbrev totals : QuoteTotals
totals = record {
  subtotal_cents = 10000;
  discount_cents = 1000;
  tax_cents = 1530;
  total_cents = 10530;
}

calculate_quote_totals_iff_example :
    ((calculate_quote_totals (item ∷ []) (pos 1000) 1700 ≡ passed totals) ↔ (
      IsQuotable (item ∷ []) (pos 1000)
      × (totals.subtotal_cents ≡ gross (item ∷ []))
      × (totals.discount_cents ≡ 1000)
      × (totals.tax_cents * 10000 ≤ (gross (item ∷ []) - 1000) * 1700 + 5000)
      × ((gross (item ∷ []) - 1000) * 1700 + 5000 < totals.tax_cents * 10000 + 10000)
      × (totals.total_cents + 1000 ≡ gross (item ∷ []) + totals.tax_cents)))
    × ((calculate_quote_totals (item ∷ []) (pos 1000) 1700 ≡ passed totals)
        → totals.total_cents ≤ max_safe_integer)
calculate_quote_totals_iff_example =
    calculate_quote_totals_iff (item ∷ []) (pos 1000) 1700 totals (omega arith)

abbrev two_visits : List Appointment
two_visits = visit ∷ record visit { base = record (visit.base) { id = 6 } } ∷ []

repository_refines_map_example :
    ((saved : List Appointment) × (save 1 visit two_visits ≡ passed saved)
      × (lookup saved ≡ changed 1 5 (some visit) (lookup two_visits))
      × IsKeyed saved)
    × (lookup (remove 1 6 two_visits) ≡ changed 1 6 none (lookup two_visits))
    × IsKeyed (remove 1 6 two_visits)
repository_refines_map_example = repository_refines_map 1 6 visit two_visits (refl, (refl, tt)) refl

infer_agrees_example :
    infer (context_of 1 lead talk knowledge [] database)
    ≡ (evaluate_lead 1 lead talk database).opportunity.stage
infer_agrees_example =
    infer_agrees 1 lead talk knowledge [] database visit refl refl refl refl (omega arith)
      ((λ _. refl), tt)

abbrev result : JourneyReconciliation
result = evaluate_lead 1 lead talk database

evaluate-IsPaid_example : IsPaid result.opportunity
unfolding evaluate get remaining_balance ◌+ℤ◌
evaluate-IsPaid_example = evaluate-IsPaid 1 2 database result refl refl

verify-is_verified_example :
    get 1 10 (verify attribution_input 5000 database).1.revenue_events ≡ some revenue
unfolding get
verify-is_verified_example =
    verify-is_verified attribution_input 5000 database 1 10 revenue refl refl

verify-AllEvidenced_example : AllEvidenced (verify attribution_input 5000 database).1
unfolding get
verify-AllEvidenced_example =
    verify-AllEvidenced attribution_input 5000 database
      ((λ v. record { named = refl; fits = refl }), tt)

abbrev text_of : Uuid → Key
text_of id = "4"

summarize-net_cents_example :
    let s = summarize 1 database in
    (s.generated_cents + s.recovered_cents + s.protected_cents + s.reactivated_cents ≡ 9000)
    × (s.verified_event_count ≡ 1)
summarize-net_cents_example = summarize-net_cents 1 database

service-IsSingle_example :
    IsSingle (schedule text_of follow_up_input 20 700 database).1.scheduled_follow_ups
    × IsSingle (complete_for_customer_response 1 4 700 database).scheduled_follow_ups
    × IsSingle
        (cancel_pending 1 4 FollowUpStopReason.human_takeover true 700
          database).scheduled_follow_ups
    × IsSingle
        (record_attempt 1 20 AttemptResult.sent " sent-1 " 700 database).1.scheduled_follow_ups
service-IsSingle_example =
    service-IsSingle text_of follow_up_input 1 20 4 AttemptResult.sent " sent-1 "
      FollowUpStopReason.human_takeover true 700 database
      (λ business conversation scenario. ground arith)

abbrev after_attempt : ScheduledFollowUp
after_attempt = attempted AttemptResult.sent "sent-1" 700 (some 259200700) waiting

record_attempt_once_example :
    let d' = (record_attempt 1 13 AttemptResult.sent " sent-1 " 700 database).1 in
    record_attempt 1 13 AttemptResult.sent " sent-1 " 900 d' ≡ (passed after_attempt, d')
unfolding record_attempt get trim save_in save
record_attempt_once_example =
    record_attempt_once 1 13 AttemptResult.sent " sent-1 " 700 900 database after_attempt refl

abbrev candidates : List ReactivationCandidate
candidates = candidates_of 1 1 90000000 lost_database (list 1 lost_database.leads)

list_candidates-IsBacked_example :
    All (IsBacked 1 1 90000000 lost_database lost_database.leads) candidates
unfolding list_candidates get
list_candidates-IsBacked_example =
    list_candidates-IsBacked 1 90000000 lost_database settings candidates refl refl

record_activity-IsUnique_example :
    IsUnique (record_activity activity_input 21 700 database).1.activities
record_activity-IsUnique_example =
    record_activity-IsUnique activity_input 21 700 database (λ business key full. ground arith)

conversation_silenced_example :
    (waits 4 (get 1 13 (complete_for_customer_response 1 4 700 database).scheduled_follow_ups)
      ≡ false)
    × (waits 4 (
          get 1 13
            (cancel_pending 1 4 FollowUpStopReason.human_takeover true 700
              database).scheduled_follow_ups)
        ≡ false)
conversation_silenced_example =
    conversation_silenced 1 13 4 FollowUpStopReason.human_takeover true 700 database

abbrev closed_lead : Lead
closed_lead = lost_as OpportunityLostReason.customer_declined 700 lead

close_opportunity_lost-found_example :
    let d' =
      (close_opportunity_lost 1 2 OpportunityLostReason.customer_declined "lost" 30 700
        database).1 in
    (get 1 2 d'.leads ≡ some closed_lead) × (is_lost closed_lead.status ≡ true)
unfolding close_opportunity_lost close_open end_lost clear_pending_actions save_actions save_in save
    get record_activity cancel_pending save_each
close_opportunity_lost-found_example =
    close_opportunity_lost-found 1 2 OpportunityLostReason.customer_declined "lost" 30 700 database
      closed_lead refl

abbrev advice : JourneyActionRecommendation
advice = record {
  action = NextActionType.collect_balance;
  reason = "Request the remaining balance.";
  due_at = none;
  automatic = false;
}

abbrev drawn : ℕ → Uuid
drawn n = 40 + n

abbrev next_action : NextAction
next_action = new_action 1 4 lead advice 40 700
