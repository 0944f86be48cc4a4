-- ===== src/Client/FollowUps/Kept.antt =====
-- What a follow-up goes through leaves one at most of its scenario waiting in its conversation.
use closer_v.Prelude.{
  Bool, true, false, ◌==◌, ◌≡◌, refl, sym, subst, inl, inr, Option, none, some, List, [], ◌∷◌,
  find?, head?, arith, Bool-cases,
}
use closer_v.Prelude.Laws.{find?-holds}
use closer_v.Domain.Values.{Uuid, Key, Instant}
use closer_v.Client.Kinds.{AttemptResult, FollowUpStopReason}
use closer_v.Client.Entities.{BusinessSettings, FollowUpAttempt, ScheduledFollowUp}
use closer_v.Client.Repository.{is_row, get, put, list, find_all}
use closer_v.Client.Repository.Counts.{count-put_other, count-put_found}
use closer_v.Client.Database.{
  Database, in_scheduled_follow_ups, save_in, save_in-own, save_in-other,
  scheduled_follow_up_entity, business_settings_entity,
}
use closer_v.Client.Stage.{is_scheduled}
use closer_v.Client.Text.{trim, is_empty_text}
use closer_v.Client.FollowUps.Schedule.{ScheduleFollowUpInput, schedule}
use closer_v.Client.FollowUps.Progress.{
  is_for, save_each, same_result, has_operation, complete_by_response,
  complete_for_customer_response, cancel_by, cancel_pending, attempted, next_attempt, add_attempt,
  attempt_with, attempt_on, record_attempt,
}
use closer_v.Client.FollowUps.Single.{is_waiting, IsSingle, schedule-IsSingle}

put_closed :
    (b : Uuid) (f : ScheduledFollowUp) (fs : List ScheduledFollowUp)
    → is_scheduled f.status ≡ false
    → IsSingle fs
    → IsSingle (put b f fs)
put_closed b f fs closed h b' c' s' =
    let k = count-put_other (is_waiting b' c' s') b f fs (ground (arith, closed)) in
    let l = h b' c' s' in omega (arith, k, l)

save_in_closed :
    (b : Uuid) (f : ScheduledFollowUp) (d : Database)
    → is_scheduled f.status ≡ false
    → IsSingle d.scheduled_follow_ups
    → IsSingle (save_in in_scheduled_follow_ups b f d).1.scheduled_follow_ups
save_in_closed b f d closed h = elim (Bool-cases (f.business_id == b)) [
  | inl own ↦
      rw (save_in-own in_scheduled_follow_ups b f d (ground (arith, own)))
        (put_closed b f d.scheduled_follow_ups closed h)
  | inr other ↦ rw (save_in-other in_scheduled_follow_ups b f d other) h
]

save_each-IsSingle :
    (b : Uuid) (write : ScheduledFollowUp → ScheduledFollowUp) (fs : List ScheduledFollowUp)
    (d : Database)
    → ((f : ScheduledFollowUp) → is_scheduled (write f).status ≡ false)
    → IsSingle d.scheduled_follow_ups
    → IsSingle (save_each b write fs d).scheduled_follow_ups
unfolding save_each
save_each-IsSingle b write [] d closes h = h
save_each-IsSingle b write (f ∷ fs) d closes h =
    save_each-IsSingle b write fs (save_in in_scheduled_follow_ups b (write f) d).1 closes
      (save_in_closed b (write f) d (closes f) h)

-- The follow-up that is found is the one that was asked for.
pub is_own :
    (business id : Uuid) (d : Database) (f : ScheduledFollowUp)
    → get business id d.scheduled_follow_ups ≡ some f
    → (f.business_id ≡ business) × (f.id ≡ id)
unfolding get
is_own business id d f found =
    let row = find?-holds (is_row business id) d.scheduled_follow_ups f found in
    (ground (arith, row), ground (arith, row))

module _ (business id : Uuid) (result : AttemptResult) (key : Key) (now : Instant) (d : Database)
    (h : IsSingle d.scheduled_follow_ups) (f : ScheduledFollowUp)
    (found : get business id d.scheduled_follow_ups ≡ some f) where
  add_attempt-IsSingle :
      (settings : Option BusinessSettings)
      → is_scheduled f.status ≡ true
      → IsSingle (add_attempt business result key now f settings d).1.scheduled_follow_ups
  add_attempt-IsSingle none waits = h
  add_attempt-IsSingle (some settings) waits =
      let g = attempted result key now (next_attempt f now settings) f in
      rw (save_in-own in_scheduled_follow_ups business g d (is_own business id d f found).0)
        (λ b' c' s'.
          let k =
            count-put_found (is_waiting b' c' s') business g f d.scheduled_follow_ups
              (subst (λ i. get business i d.scheduled_follow_ups ≡ some f)
                (sym (is_own business id d f found).1) found)
              (λ t. ground (arith, t, waits)) in
          let l = h b' c' s' in omega (arith, k, l))

  attempt_with-IsSingle :
      (old : Option FollowUpAttempt)
      → IsSingle (attempt_with business result key now f old d).1.scheduled_follow_ups
  attempt_with-IsSingle (some a) = elim (Bool-cases (same_result a.result result)) [
    | inl t ↦ rw t h
    | inr t ↦ rw t h
  ]
  attempt_with-IsSingle none = elim (Bool-cases (is_scheduled f.status)) [
    | inl t ↦ rw t (add_attempt-IsSingle (head? (list business d.business_settings)) t)
    | inr t ↦ rw t h
  ]

attempt_on-IsSingle :
    (business id : Uuid) (result : AttemptResult) (key : Key) (now : Instant) (d : Database)
    (o : Option ScheduledFollowUp)
    → get business id d.scheduled_follow_ups ≡ o
    → IsSingle d.scheduled_follow_ups
    → IsSingle (attempt_on business result key now o d).1.scheduled_follow_ups
attempt_on-IsSingle business id result key now d none e h = h
attempt_on-IsSingle business id result key now d (some f) e h =
    elim (Bool-cases (is_empty_text key)) [
      | inl t ↦ rw t h
      | inr t ↦ rw t (
          attempt_with-IsSingle business id result key now d h f e
            (find? (has_operation key) f.attempts))
    ]

-- Never two follow-ups of one scenario wait in one conversation: each call of the service, whether it
-- schedules, completes after a response, cancels or records an attempt, keeps the invariant, whatever
-- its arguments.
pub service-IsSingle :
    (id_text : Uuid → Key) (input : ScheduleFollowUpInput) (business id conversation : Uuid)
    (result : AttemptResult) (key : Key) (reason : FollowUpStopReason) (manual : Bool)
    (now : Instant) (d : Database)
    → IsSingle d.scheduled_follow_ups
    → IsSingle (schedule id_text input id now d).1.scheduled_follow_ups
      × IsSingle (complete_for_customer_response business conversation now d).scheduled_follow_ups
      × IsSingle (cancel_pending business conversation reason manual now d).scheduled_follow_ups
      × IsSingle (record_attempt business id result key now d).1.scheduled_follow_ups
unfolding complete_for_customer_response cancel_pending record_attempt
service-IsSingle id_text input business id conversation result key reason manual now d h = (
  schedule-IsSingle id_text input id now d h,
  save_each-IsSingle business (complete_by_response now)
      (find_all business (is_for conversation) d.scheduled_follow_ups) d (λ f. refl) h,
  save_each-IsSingle business (cancel_by reason manual now)
      (find_all business (is_for conversation) d.scheduled_follow_ups) d (λ f. refl) h,
  attempt_on-IsSingle business id result (trim key) now d (get business id d.scheduled_follow_ups)
      refl h,
)
