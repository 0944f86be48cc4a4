-- ===== src/Store/FollowUps/Leases.antt =====
-- The leases of the workers, and the attempts that they report.
use text.Mathlib.TextPositions.{eq_refl}
use closer_v.Prelude.{
  ◌≤◌, ◌<◌, true, false, ◌&&◌, ◌≡◌, ◌⊎◌, inl, inr, Option, none, some, [], ◌∷◌, sym, subst, arith,
  find?, any, update_first, All, Bool-cases, Option-cases, String,
}
use closer_v.Prelude.Laws.{All-update_found, All-update_first, any-append, find?-holds}
use closer_v.Domain.Values.{Uuid, Key, Instant, TimeText}
use closer_v.Domain.Model.{FollowUpJobRecord, FollowUpJobStatus}
use closer_v.Store.State.{State, ok, err, api_error, follow_up_lease_lost}
use closer_v.Store.Lookup.{same_text}
use closer_v.Store.FollowUps.{
  has_id, is_due, is_leased_by, lease, next_due, claim_due_follow_up, finish_attempt, fail_attempt,
  end_attempt, complete_follow_up, fail_follow_up,
}

-- The attempts are within their bound, and a lease always stands for one more attempt.
pub record IsWithin (f : FollowUpJobRecord) : Type 0 where
  pub bounded : f.attempt_count ≤ f.max_attempts
  pub one_left : f.status ≡ FollowUpJobStatus.leased → f.attempt_count < f.max_attempts

-- What a write makes of a follow-up that the worker holds.
module _ (write : FollowUpJobRecord → FollowUpJobRecord) (id : Uuid) (worker key : Key)
    (s : State) where
  pub end_attempt-cases :
      ((end_attempt write id worker key s).1.follow_ups ≡ s.follow_ups)
      ⊎ (f : FollowUpJobRecord) × (find? (has_id id) s.follow_ups ≡ some f)
        × (is_leased_by worker f ≡ true)
        × ((end_attempt write id worker key s).1.follow_ups
            ≡ update_first (has_id f.id) write s.follow_ups)
  unfolding end_attempt
  end_attempt-cases = elim (Bool-cases (any (same_text key) s.follow_up_attempts)) [
    | inl used ↦ inl (ground (arith, used))
    | inr new ↦ elim (Option-cases (find? (has_id id) s.follow_ups)) [
      | inl missing ↦ inl (ground (arith, new, missing))
      | inr (f, found) ↦ elim (Bool-cases (is_leased_by worker f)) [
        | inl held ↦ inr (f, found, held, ground (arith, new, found, held))
        | inr lost ↦ inl (ground (arith, new, found, lost))
      ]
    ]
  ]

  -- A worker whose lease is lost, by a cancellation, a takeover or another worker's claim, changes
  -- nothing when it reports, unless its attempt was counted before.
  lease_lost :
      any (same_text key) s.follow_up_attempts ≡ false
      → (f : FollowUpJobRecord) → find? (has_id id) s.follow_ups ≡ some f
      → is_leased_by worker f ≡ false
      → end_attempt write id worker key s ≡ (err (api_error 409 follow_up_lease_lost), s)
  unfolding end_attempt
  lease_lost new f found lost = ground arith

-- An attempt counts once: after a completion has gone through, any other completion or failure
-- that is reported with its key is accepted and changes nothing.
pub attempt_once :
    (id : Uuid) (worker key : Key) (now : Instant) (s : State)
    → (complete_follow_up id worker key now s).0 ≡ ok tt
    → let s' = (complete_follow_up id worker key now s).1 in
      (id' : Uuid) (worker' : Key) (code : String) (retry : Option TimeText) (now' : Instant)
      → (complete_follow_up id' worker' key now' s' ≡ (ok tt, s'))
        × (fail_follow_up id' worker' key code retry s' ≡ (ok tt, s'))
unfolding complete_follow_up fail_follow_up
attempt_once id worker key now s h id' worker' code retry now' = (
  ground (arith, eq_refl key, any-append (same_text key) s.follow_up_attempts (key ∷ [])),
  ground (arith, eq_refl key, any-append (same_text key) s.follow_up_attempts (key ∷ [])),
)

held-IsWithin :
    (write : FollowUpJobRecord → FollowUpJobRecord) (id : Uuid) (worker key : Key) (s : State)
    → ((f : FollowUpJobRecord) → is_leased_by worker f ≡ true → IsWithin f → IsWithin (write f))
    → All IsWithin s.follow_ups
    → All IsWithin (end_attempt write id worker key s).1.follow_ups
held-IsWithin write id worker key s keeps h = elim (end_attempt-cases write id worker key s) [
  | inl same ↦ rw same h
  | inr (f, found, held, written) ↦ rw written (
      All-update_found IsWithin (has_id f.id) write s.follow_ups
        (λ g e v. keeps g (same_found (found_by_own_id id s f found) e held) v) h)
]
  where
    same_found :
        {o : Option FollowUpJobRecord} {f g : FollowUpJobRecord}
        → o ≡ some f
        → o ≡ some g
        → is_leased_by worker f ≡ true
        → is_leased_by worker g ≡ true
    same_found {f = f} {g = g} p q l = ground (arith, p, q, l)

    found_by_own_id :
        (i : Uuid) (t : State) (f : FollowUpJobRecord)
        → find? (has_id i) t.follow_ups ≡ some f
        → find? (has_id f.id) t.follow_ups ≡ some f
    found_by_own_id i t f e =
        let same : f.id ≡ i = ground (arith, find?-holds (has_id i) t.follow_ups f e) in
        subst (λ k. find? (has_id k) t.follow_ups ≡ some f) (sym same) e

pub claim_none :
    (worker : Key) (now until : TimeText) (s : State)
    → next_due now s.follow_ups ≡ none
    → (claim_due_follow_up worker now until s).1.follow_ups ≡ s.follow_ups
unfolding claim_due_follow_up
claim_none worker now until s h = ground (arith, h)

pub claim_some :
    (worker : Key) (now until : TimeText) (s : State) (f : FollowUpJobRecord)
    → next_due now s.follow_ups ≡ some f
    → (claim_due_follow_up worker now until s).1.follow_ups
      ≡ update_first (λ g. has_id f.id g && is_due now g) (lease worker until) s.follow_ups
unfolding claim_due_follow_up
claim_some worker now until s f h = ground (arith, h)

claim-IsWithin :
    (worker : Key) (now until : TimeText) (s : State)
    → All IsWithin s.follow_ups
    → All IsWithin (claim_due_follow_up worker now until s).1.follow_ups
claim-IsWithin worker now until s h = elim (Option-cases (next_due now s.follow_ups)) [
  | inl idle ↦ rw (claim_none worker now until s idle) h
  | inr (f, chosen) ↦ rw (claim_some worker now until s f chosen) (
      All-update_first IsWithin (λ g. has_id f.id g && is_due now g) (lease worker until)
        (λ g due v. ground (arith, due)) s.follow_ups h)
]

-- No follow-up is attempted more often than `maxAttempts` allows: whatever a call of a worker does,
-- claiming, completing or failing, the attempts stay within their bound.
pub worker-IsWithin :
    (id : Uuid) (worker key : Key) (code : String) (retry : Option TimeText) (now until : TimeText)
    (at : Instant) (s : State)
    → All IsWithin s.follow_ups
    → All IsWithin (claim_due_follow_up worker now until s).1.follow_ups
      × All IsWithin (complete_follow_up id worker key at s).1.follow_ups
      × All IsWithin (fail_follow_up id worker key code retry s).1.follow_ups
unfolding complete_follow_up fail_follow_up
worker-IsWithin id worker key code retry now until at s h = (
  claim-IsWithin worker now until s h,
  held-IsWithin (finish_attempt at) id worker key s (λ f held v. ground arith) h,
  held-IsWithin (fail_attempt code retry) id worker key s (λ f held v. ground arith) h,
)
