-- ===== src/Store/FollowUps.antt =====
-- The queue of follow-ups: creation, cancelling, and the leases of the workers (`createFollowUp`,
-- `cancelFollowUp`, `claimDueFollowUp`, `completeFollowUp`, `failFollowUp`, `requireLeasedFollowUp`).
pub mod Queue
pub mod Leases
use closer_v.Prelude.{
  ℕ, ◌+◌, Bool, true, false, not, ◌&&◌, ◌||◌, ◌==◌, ltb, leb, Option, none, some, List, [], ◌∷◌,
  ◌++◌, find?, select, any, head?, sort_by, update_first, if◌then◌else◌, String,
}
use closer_v.Domain.Values.{Uuid, Key, Instant, TimeText, text_before, is_reached}
use closer_v.Domain.Model.{
  ConversationRecord, FollowUpJobRecord, FollowUpJobStatus, FollowUpCreationInput,
}
use closer_v.Store.State.{
  State, Action, api_error, invalid_follow_up_context, follow_up_contact_blocked,
  follow_up_automation_paused, follow_up_lease_lost, pure, throw, gets, or_throw, ◌>>=◌, ◌>>◌,
  throw_if, modify,
}
use closer_v.Store.Lookup.{same_text, is_conversation, is_opted_out, is_pending, is_ai_active}

abbrev pub max_follow_up_attempts : ℕ
max_follow_up_attempts = 5

abbrev pub new_follow_up : Uuid → FollowUpCreationInput → Uuid → Instant → FollowUpJobRecord
new_follow_up tenant input fresh now = record {
  id = fresh;
  tenant_id = tenant;
  conversation_id = input.conversation_id;
  customer_id = input.customer_id;
  channel = input.channel;
  reason = input.reason;
  status = FollowUpJobStatus.scheduled;
  due_at = input.due_at;
  attempt_count = 0;
  max_attempts = max_follow_up_attempts;
  lease_owner = none;
  lease_expires_at = none;
  retry_at = none;
  last_error = none;
  stop_reason = none;
  manual_override = false;
  last_response_at = none;
  completed_at = none;
  cancelled_at = none;
  idempotency_key = input.idempotency_key;
  draft_message = input.draft_message;
  created_at = now;
}

abbrev pub has_key : Uuid → Key → FollowUpJobRecord → Bool
has_key tenant key f = f.tenant_id == tenant && same_text f.idempotency_key key

-- `if (existing) return existing`, and otherwise the new follow-up is pushed.
unfoldable pub push_follow_up :
    Uuid
    → FollowUpCreationInput
    → Uuid
    → Instant
    → Option FollowUpJobRecord
    → Action FollowUpJobRecord
push_follow_up tenant input fresh now (some existing) = pure existing
push_follow_up tenant input fresh now none = do
  modify (λ s. record s { follow_ups = s.follow_ups ++ new_follow_up tenant input fresh now ∷ [] })
  pure (new_follow_up tenant input fresh now)

unfoldable pub create_follow_up :
    Uuid → FollowUpCreationInput → Uuid → Instant → Action FollowUpJobRecord
unfolding push_follow_up
create_follow_up tenant input fresh now = do
  found ← gets (λ s. find? (is_conversation tenant input.conversation_id) s.conversations)
  c ← or_throw found (api_error 422 invalid_follow_up_context)
  throw_if (not (c.customer_id == input.customer_id)) (api_error 422 invalid_follow_up_context)
  throw_if (← gets (λ s. is_opted_out tenant input.customer_id s.opted_out_customers))
      (api_error 409 follow_up_contact_blocked)
  throw_if (not (is_ai_active c.mode)) (api_error 409 follow_up_automation_paused)
  existing ← gets (λ s. find? (has_key tenant input.idempotency_key) s.follow_ups)
  push_follow_up tenant input fresh now existing

abbrev pub is_follow_up : Uuid → Uuid → FollowUpJobRecord → Bool
is_follow_up tenant id f = f.tenant_id == tenant && f.id == id

abbrev pub is_completed : FollowUpJobStatus → Bool
is_completed FollowUpJobStatus.completed = true
is_completed _ = false

abbrev pub override : Instant → FollowUpJobRecord → FollowUpJobRecord
override now f = if is_completed f.status then f else record f {
  status = FollowUpJobStatus.cancelled;
  cancelled_at = some now;
  stop_reason = some "MANUAL_OVERRIDE";
  manual_override = true;
  lease_owner = none;
  lease_expires_at = none;
}

unfoldable pub cancel_follow_up : Uuid → Uuid → Instant → Action (Option FollowUpJobRecord)
cancel_follow_up tenant id now = do
  found ← gets (λ s. find? (is_follow_up tenant id) s.follow_ups)
  modify (λ s. record s {
    follow_ups = update_first (is_follow_up tenant id) (override now) s.follow_ups;
  })
  elim found [ none ↦ pure none | some f ↦ pure (some (override now f)) ]

-- The statuses from which a follow-up may be claimed; a lease must have run out.
abbrev pub has_run_out : Option TimeText → TimeText → Bool
has_run_out none now = false
has_run_out (some until) now = is_reached until now

abbrev pub is_claimable : FollowUpJobStatus → Option TimeText → TimeText → Bool
is_claimable FollowUpJobStatus.scheduled lease now = true
is_claimable FollowUpJobStatus.failed lease now = true
is_claimable FollowUpJobStatus.leased lease now = has_run_out lease now
is_claimable _ lease now = false

-- `candidate.retryAt ?? candidate.dueAt`
abbrev pub due_time : FollowUpJobRecord → TimeText
due_time f = elim f.retry_at [ none ↦ f.due_at | some t ↦ t ]

abbrev pub is_due : TimeText → FollowUpJobRecord → Bool
is_due now f =
    is_claimable f.status f.lease_expires_at now
    && is_reached (due_time f) now
    && ltb f.attempt_count f.max_attempts

-- `localeCompare` of two times, which orders such texts as `<` does.
abbrev pub due_before : FollowUpJobRecord → FollowUpJobRecord → Bool
due_before f g = text_before f.due_at g.due_at

abbrev pub lease : Key → TimeText → FollowUpJobRecord → FollowUpJobRecord
lease worker until f = record f {
  status = FollowUpJobStatus.leased;
  lease_owner = some worker;
  lease_expires_at = some until;
}

abbrev pub has_id : Uuid → FollowUpJobRecord → Bool
has_id id f = f.id == id

unfoldable pub next_due : TimeText → List FollowUpJobRecord → Option FollowUpJobRecord
next_due now fs = head? (sort_by due_before (select (is_due now) fs))

-- The write goes to the follow-up that was chosen: the due one of that id.
unfoldable pub claim_due_follow_up : Key → TimeText → TimeText → Action (Option FollowUpJobRecord)
claim_due_follow_up worker now lease_until = do
  due ← gets (λ s. next_due now s.follow_ups)
  elim due [
    | none ↦ pure none
    | some f ↦ do
      modify (λ s. record s {
        follow_ups =
            update_first (λ g. has_id f.id g && is_due now g) (lease worker lease_until)
              s.follow_ups;
      })
      pure (some (lease worker lease_until f))
  ]

-- `status !== 'leased' || leaseOwner !== workerId`
abbrev pub is_leased_by : Key → FollowUpJobRecord → Bool
is_leased_by worker f = elim f.status [
  | FollowUpJobStatus.leased ↦ elim f.lease_owner [ none ↦ false | some w ↦ same_text w worker ]
  | _ ↦ false
]

unfoldable pub require_leased_follow_up : Uuid → Key → Action FollowUpJobRecord
require_leased_follow_up id worker = do
  found ← gets (λ s. find? (has_id id) s.follow_ups)
  f ← or_throw found (api_error 409 follow_up_lease_lost)
  throw_if (not (is_leased_by worker f)) (api_error 409 follow_up_lease_lost)
  pure f

abbrev pub finish_attempt : Instant → FollowUpJobRecord → FollowUpJobRecord
finish_attempt now f = record f {
  attempt_count = f.attempt_count + 1;
  status = FollowUpJobStatus.completed;
  completed_at = some now;
  lease_owner = none;
  lease_expires_at = none;
}

abbrev pub fail_attempt : String → Option TimeText → FollowUpJobRecord → FollowUpJobRecord
fail_attempt error_code retry_at f = record f {
  attempt_count = f.attempt_count + 1;
  status = FollowUpJobStatus.failed;
  last_error = some error_code;
  retry_at = retry_at;
  lease_owner = none;
  lease_expires_at = none;
}

-- Both ends of an attempt: nothing for a key that was used, otherwise the lease is checked, the key
-- is kept and the follow-up is written.
unfoldable pub end_attempt :
    (FollowUpJobRecord → FollowUpJobRecord) → Uuid → Key → Key → Action (Unit {0})
unfolding require_leased_follow_up
end_attempt write id worker attempt_key = do
  used ← gets (λ s. any (same_text attempt_key) s.follow_up_attempts)
  elim used [
    | true ↦ pure tt
    | false ↦ do
      f ← require_leased_follow_up id worker
      modify (λ s. record s {
        follow_up_attempts = s.follow_up_attempts ++ attempt_key ∷ [];
        follow_ups = update_first (has_id f.id) write s.follow_ups;
      })
  ]

unfoldable pub complete_follow_up : Uuid → Key → Key → Instant → Action (Unit {0})
unfolding end_attempt
complete_follow_up id worker attempt_key now =
    end_attempt (finish_attempt now) id worker attempt_key

unfoldable pub fail_follow_up : Uuid → Key → Key → String → Option TimeText → Action (Unit {0})
unfolding end_attempt
fail_follow_up id worker attempt_key error_code retry_at =
    end_attempt (fail_attempt error_code retry_at) id worker attempt_key
