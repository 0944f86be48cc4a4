-- ===== src/Client/FollowUps/Progress.antt =====
-- How a follow-up goes on: `completeForCustomerResponse`, `cancelPending` and `recordAttempt` of
-- src/application/conversation/FollowUpService.ts. A method takes the time.
use text.Mathlib.Text.{◌==◌ as str_eq}
use closer_v.Prelude.{
  ◌+◌, ◌*◌, Bool, true, false, ◌&&◌, ◌==◌, Option, none, some, List, [], ◌∷◌, ◌++◌, find?, head?,
  if◌then◌else◌,
}
use closer_v.Domain.Values.{Uuid, Key, Instant}
use closer_v.Client.Kinds.{
  AttemptResult, FollowUpOwner, FollowUpResult, FollowUpStatus, FollowUpStopReason,
}
use closer_v.Client.Entities.{BusinessSettings, FollowUpAttempt, ScheduledFollowUp}
use closer_v.Client.Rules.{DomainCode}
use closer_v.Client.Repository.{get, list, find_all}
use closer_v.Client.Database.{
  Database, Work, done, fail, save_in, in_scheduled_follow_ups, business_settings_entity,
  conversation_entity, consent_record_entity, next_action_entity, scheduled_follow_up_entity,
}
use closer_v.Client.Text.{trim, is_empty_text}
use closer_v.Client.Stage.{is_scheduled}
use closer_v.Client.FollowUps.Scenario.{cadence_at}

abbrev pub is_for : Uuid → ScheduledFollowUp → Bool
is_for conversation f = f.conversation_id == conversation && is_scheduled f.status

-- The saves of a `map` over follow-ups that were found before.
unfoldable pub save_each :
    Uuid → (ScheduledFollowUp → ScheduledFollowUp) → List ScheduledFollowUp → Database → Database
save_each business write [] d = d
save_each business write (f ∷ fs) d =
    save_each business write fs (save_in in_scheduled_follow_ups business (write f) d).1

abbrev pub complete_by_response : Instant → ScheduledFollowUp → ScheduledFollowUp
complete_by_response now f = record f {
  base = record (f.base) { updated_at = now };
  status = FollowUpStatus.completed;
  next_attempt_at = none;
  last_response_at = some now;
  stop_reason = some FollowUpStopReason.customer_replied;
  result = FollowUpResult.response_received;
}

unfoldable pub complete_for_customer_response : Uuid → Uuid → Instant → Database → Database
unfolding save_each
complete_for_customer_response business conversation now d =
    save_each business (complete_by_response now)
      (find_all business (is_for conversation) d.scheduled_follow_ups) d

abbrev pub cancel_by : FollowUpStopReason → Bool → Instant → ScheduledFollowUp → ScheduledFollowUp
cancel_by reason manual now f = record f {
  base = record (f.base) { updated_at = now };
  status = FollowUpStatus.cancelled;
  next_attempt_at = none;
  stop_reason = some reason;
  manual_override = manual;
  owner = if manual then FollowUpOwner.human else f.owner;
  result = FollowUpResult.stopped;
}

unfoldable pub cancel_pending :
    Uuid → Uuid → FollowUpStopReason → Bool → Instant → Database → Database
unfolding save_each
cancel_pending business conversation reason manual now d =
    save_each business (cancel_by reason manual now)
      (find_all business (is_for conversation) d.scheduled_follow_ups) d

abbrev pub result_of : AttemptResult → FollowUpResult
result_of AttemptResult.sent = FollowUpResult.sent
result_of AttemptResult.failed = FollowUpResult.failed

abbrev pub same_result : AttemptResult → AttemptResult → Bool
same_result AttemptResult.sent AttemptResult.sent = true
same_result AttemptResult.failed AttemptResult.failed = true
same_result _ _ = false

abbrev pub has_operation : Key → FollowUpAttempt → Bool
has_operation key a = str_eq a.operation_key key

abbrev pub status_after : Option Instant → FollowUpStatus
status_after none = FollowUpStatus.completed
status_after (some at) = FollowUpStatus.scheduled

abbrev pub attempted :
    AttemptResult → Key → Instant → Option Instant → ScheduledFollowUp → ScheduledFollowUp
attempted result key now next f = record f {
  base = record (f.base) { updated_at = now };
  status = status_after next;
  due_at = elim next [ none ↦ f.due_at | some at ↦ at ];
  sequence_step = f.sequence_step + 1;
  attempt_count = f.attempt_count + 1;
  attempts = f.attempts ++ record { operation_key = key; result = result; attempted_at = now } ∷ [];
  next_attempt_at = next;
  last_attempt_at = some now;
  result = result_of result;
}

-- The time of the next attempt, where the cadence of the scenario goes on.
abbrev pub next_attempt : ScheduledFollowUp → Instant → BusinessSettings → Option Instant
next_attempt f now settings =
    elim (cadence_at f.scenario (f.sequence_step + 1) settings.follow_up_cadence_hours) [
      | none ↦ none
      | some hours ↦ some (now + hours * 3600000)
    ]

-- What is done with an attempt whose key is new.
abbrev pub add_attempt :
    Uuid
    → AttemptResult
    → Key
    → Instant
    → ScheduledFollowUp
    → Option BusinessSettings
    → Work ScheduledFollowUp
add_attempt business result key now f none = fail DomainCode.not_found
add_attempt business result key now f (some settings) =
    save_in in_scheduled_follow_ups business
      (attempted result key now (next_attempt f now settings) f)

abbrev pub attempt_with :
    Uuid
    → AttemptResult
    → Key
    → Instant
    → ScheduledFollowUp
    → Option FollowUpAttempt
    → Work ScheduledFollowUp
attempt_with business result key now f (some existing) d =
    if same_result existing.result result then done f d else fail DomainCode.idempotency_conflict d
attempt_with business result key now f none d =
    if is_scheduled f.status
    then add_attempt business result key now f (head? (list business d.business_settings)) d
    else fail DomainCode.follow_up_not_scheduled d

abbrev pub attempt_on :
    Uuid → AttemptResult → Key → Instant → Option ScheduledFollowUp → Work ScheduledFollowUp
attempt_on business result key now none d = fail DomainCode.not_found d
attempt_on business result key now (some f) d =
    if is_empty_text key
    then fail DomainCode.invalid_operation_key d
    else attempt_with business result key now f (find? (has_operation key) f.attempts) d

unfoldable pub record_attempt : Uuid → Uuid → AttemptResult → Key → Instant → Work ScheduledFollowUp
record_attempt business id result operation_key now d =
    attempt_on business result (trim operation_key) now (get business id d.scheduled_follow_ups) d
