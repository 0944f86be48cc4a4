-- ===== src/Client/FollowUps/Attempts.antt =====
-- An attempt is recorded once.
use text.Mathlib.TextPositions.{eq_refl}
use closer_v.Prelude.{
  true, false, ◌==◌, ◌&&◌, ◌≡◌, refl, sym, ◌∙◌, subst, ap, inl, inr, Option, none, some, [], ◌∷◌,
  find?, head?, arith, Bool-cases, ==_refl,
}
use closer_v.Prelude.Laws.{find?-append_new}
use closer_v.Domain.Values.{Uuid, Key, Instant}
use closer_v.Client.Kinds.{AttemptResult}
use closer_v.Client.Entities.{BusinessSettings, FollowUpAttempt, ScheduledFollowUp}
use closer_v.Client.Rules.{DomainCode, passed, refused}
use closer_v.Client.Repository.{get, put, list}
use closer_v.Client.Repository.Refinement.{get-put}
use closer_v.Client.Database.{
  Database, in_scheduled_follow_ups, save_in-own, scheduled_follow_up_entity,
  business_settings_entity,
}
use closer_v.Client.Stage.{is_scheduled}
use closer_v.Client.Text.{trim, is_empty_text}
use closer_v.Client.FollowUps.Progress.{
  same_result, has_operation, attempted, next_attempt, add_attempt, attempt_with, attempt_on,
  record_attempt,
}
use closer_v.Client.FollowUps.Kept.{is_own}

module _ (business id : Uuid) (result : AttemptResult) (key : Key) where
  -- The follow-up has an attempt of the key with the result.
  pub record IsRecorded (d : Database) (g : ScheduledFollowUp) : Type 0 where
    pub is_found : get business id d.scheduled_follow_ups ≡ some g
    pub attempt : FollowUpAttempt
    pub is_there : find? (has_operation key) g.attempts ≡ some attempt
    pub agrees : same_result attempt.result result ≡ true
    pub is_key : is_empty_text key ≡ false

  replay :
      (now : Instant) (d : Database) (g : ScheduledFollowUp)
      → IsRecorded d g
      → attempt_on business result key now (get business id d.scheduled_follow_ups) d
        ≡ (passed g, d)
  replay now d g r = rw (r.is_found, r.is_key, r.is_there, r.agrees) refl

  same : {f g : ScheduledFollowUp} → passed f ≡ passed g → f ≡ g
  same e = ground (arith, e)

  refuses : {x : DomainCode} {g : ScheduledFollowUp} → refused x ≡ passed g → ⊥
  refuses e = ground (arith, e)

  same_result_refl : (r : AttemptResult) → same_result r r ≡ true
  same_result_refl r = ground arith

  module _ (now : Instant) (d : Database) (f g : ScheduledFollowUp)
      (found : get business id d.scheduled_follow_ups ≡ some f)
      (is_key : is_empty_text key ≡ false) where
    attempted-IsRecorded :
        (next : Option Instant)
        → find? (has_operation key) f.attempts ≡ none
        → IsRecorded
            (record d {
              scheduled_follow_ups =
                  put business (attempted result key now next f) d.scheduled_follow_ups;
            })
            (attempted result key now next f)
    attempted-IsRecorded next new =
        let (own, named) = is_own business id d f found in
        let here : (business == business && id == f.id) ≡ true =
          rw (==_refl business, named) (==_refl id) in
        record {
          is_found =
              get-put business business id (attempted result key now next f) d.scheduled_follow_ups
                own
              ∙ rw here refl;
          attempt = record { operation_key = key; result = result; attempted_at = now };
          is_there =
              find?-append_new (has_operation key) f.attempts
                (record { operation_key = key; result = result; attempted_at = now } ∷ []) new
              ∙ rw (eq_refl key) refl;
          agrees = same_result_refl result;
          is_key = is_key;
        }

    added :
        (settings : Option BusinessSettings)
        → find? (has_operation key) f.attempts ≡ none
        → (add_attempt business result key now f settings d).0 ≡ passed g
        → IsRecorded (add_attempt business result key now f settings d).1 g
    added none new e = absurd (refuses e)
    added (some settings) new e =
        let next = next_attempt f now settings in
        let saved =
          save_in-own in_scheduled_follow_ups business (attempted result key now next f) d
            (is_own business id d f found).0 in
        rw saved (
          subst (IsRecorded _) (same (ap (λ r. r.0) (sym saved) ∙ e))
            (attempted-IsRecorded next new))

    with_old :
        (old : Option FollowUpAttempt)
        → find? (has_operation key) f.attempts ≡ old
        → (attempt_with business result key now f old d).0 ≡ passed g
        → IsRecorded (attempt_with business result key now f old d).1 g
    with_old (some a) there e = elim (Bool-cases (same_result a.result result)) [
      | inl t ↦ rw t (
          subst (IsRecorded d) (same (rw t at e))
            record { is_found = found; attempt = a; is_there = there; agrees = t; is_key = is_key })
      | inr t ↦ absurd (refuses (rw t at e))
    ]
    with_old none new e = elim (Bool-cases (is_scheduled f.status)) [
      | inl t ↦ rw t (added (head? (list business d.business_settings)) new (rw t at e))
      | inr t ↦ absurd (refuses (rw t at e))
    ]

  attempt_on-IsRecorded :
      (now : Instant) (d : Database) (g : ScheduledFollowUp) (o : Option ScheduledFollowUp)
      → get business id d.scheduled_follow_ups ≡ o
      → (attempt_on business result key now o d).0 ≡ passed g
      → IsRecorded (attempt_on business result key now o d).1 g
  attempt_on-IsRecorded now d g none found e = absurd (refuses e)
  attempt_on-IsRecorded now d g (some f) found e = elim (Bool-cases (is_empty_text key)) [
    | inl t ↦ absurd (refuses (rw t at e))
    | inr t ↦
        rw t (with_old now d f g found t (find? (has_operation key) f.attempts) refl (rw t at e))
  ]

-- An attempt is recorded once: after a call of `recordAttempt` has returned a follow-up, the same call
-- returns that follow-up again, at any later time, and changes nothing.
pub record_attempt_once :
    (business id : Uuid) (result : AttemptResult) (operation_key : Key) (now later : Instant)
    (d : Database) (g : ScheduledFollowUp)
    → (record_attempt business id result operation_key now d).0 ≡ passed g
    → let d' = (record_attempt business id result operation_key now d).1 in
      record_attempt business id result operation_key later d' ≡ (passed g, d')
unfolding record_attempt
record_attempt_once business id result operation_key now later d g e =
    let key = trim operation_key in
    replay business id result key later
      (attempt_on business result key now (get business id d.scheduled_follow_ups) d).1 g
      (attempt_on-IsRecorded business id result key now d g (get business id d.scheduled_follow_ups)
        refl e)
