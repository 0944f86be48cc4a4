-- ===== src/Examples/Operations.antt =====
-- Follow-ups, requests that run once, and the limiter at concrete inputs.
use closer_v.Prelude.{
  ℕ, ◌≡◌, refl, ◌+◌, true, false, none, List, [], ◌∷◌, All, length, ◌≤◌, arith, String,
}
use closer_v.Domain.Values.{TimeText}
use closer_v.Domain.Model.{FollowUpJobRecord}
use closer_v.Store.State.{ok}
use closer_v.Store.FollowUps.{
  is_due, next_due, end_attempt, claim_due_follow_up, complete_follow_up, fail_follow_up,
}
use closer_v.Store.FollowUps.Queue.{NotBefore, next_due_earliest}
use closer_v.Store.FollowUps.Leases.{IsWithin, attempt_once, worker-IsWithin}
use closer_v.Idempotency.{
  CompositeKey, IdempotencyRecord, Ran, Ran.ok as ran, value, idempotency_conflict, execute,
}
use closer_v.Idempotency.Once.{execute_once}
use closer_v.RateLimit.{Bucket, Limits, allow}
use closer_v.RateLimit.Bounds.{allow-length}
use closer_v.RateLimit.Window.{Call, accepted, accepted-least}
use closer_v.Examples.Data.{follow_up, queued_store, leased_store}

abbrev at_ten_past : TimeText
at_ten_past = "2026-03-02T10:10:00.000Z"

abbrev half_past : TimeText
half_past = "2026-03-02T10:30:00.000Z"

abbrev at_eleven : TimeText
at_eleven = "2026-03-02T11:00:00.000Z"

abbrev first_due : FollowUpJobRecord
first_due = record (follow_up) { id = 11; due_at = "2026-03-02T10:00:30.000Z" }

next_due_earliest_example :
    (is_due at_ten_past first_due ≡ true)
    × All
        (λ g. is_due at_ten_past g ≡ true → NotBefore first_due.due_at g.due_at)
        queued_store.follow_ups
unfolding next_due
next_due_earliest_example = next_due_earliest at_ten_past queued_store.follow_ups first_due refl

attempt_once_example :
    let s' = (complete_follow_up 10 "worker-1" "attempt-1" 100 leased_store).1 in
    (complete_follow_up 10 "worker-2" "attempt-1" 300 s' ≡ (ok tt, s'))
    × (fail_follow_up 10 "worker-2" "attempt-1" "TIMEOUT" none s' ≡ (ok tt, s'))
unfolding complete_follow_up end_attempt
attempt_once_example =
    attempt_once 10 "worker-1" "attempt-1" 100 leased_store refl 10 "worker-2" "TIMEOUT" none 300

worker-IsWithin_example :
    All IsWithin (claim_due_follow_up "worker-1" half_past at_eleven leased_store).1.follow_ups
    × All IsWithin (complete_follow_up 10 "worker-1" "attempt-1" 250 leased_store).1.follow_ups
    × All IsWithin
        (fail_follow_up 10 "worker-1" "attempt-1" "TIMEOUT" none leased_store).1.follow_ups
worker-IsWithin_example =
    worker-IsWithin 10 "worker-1" "attempt-1" "TIMEOUT" none half_past at_eleven 250 leased_store
      (record { bounded = omega arith; one_left = λ _. omega arith }, tt)

abbrev request : CompositeKey
request = record { tenant_id = 1; scope = "booking"; key = "k" }

-- Counts how often it has run.
abbrev count_run : ℕ → Ran ℕ ℕ × ℕ
count_run w = (ran 7, w + 1)

abbrev no_records : List (IdempotencyRecord ℕ)
no_records = []

execute_once_example :
    let rs' = (execute request "hash" count_run no_records 0).1 in
    ((execute request "hash" count_run no_records 0).0 ≡ value 7 false)
    × ((execute request "hash" count_run no_records 0).2 ≡ 1)
    × (execute request "hash" count_run rs' 5 ≡ (value 7 true, rs', 5))
    × (execute request "other" count_run rs' 5 ≡ (idempotency_conflict, rs', 5))
execute_once_example =
    execute_once request "hash" count_run count_run "other" no_records 0 5 refl refl refl

abbrev limits : Limits
limits = record { limit = 2; window_ms = 1000; max_buckets = 1 }

abbrev buckets : List Bucket
buckets = record { key = "a"; count = 1; reset_at = 500 } ∷ []

abbrev bucket : Bucket
bucket = record { key = "a"; count = 1; reset_at = 500 }

abbrev called : String → ℕ → Call
called key now = record { key = key; now = now }

allow-length_example : length (allow limits "c" 100 buckets).0 ≤ 1
allow-length_example = allow-length limits "c" 100 buckets (omega arith)

accepted-least_example :
    accepted limits "a" (called "a" 100 ∷ called "b" 110 ∷ called "a" 120 ∷ []) buckets ≡ 1
accepted-least_example =
    accepted-least limits "a" (called "a" 100 ∷ called "b" 110 ∷ called "a" 120 ∷ []) buckets bucket
      refl (omega arith, (omega arith, (omega arith, tt)))
