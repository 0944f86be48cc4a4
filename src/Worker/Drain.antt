-- ===== src/Worker/Drain.antt =====
-- The worker gets through what is due.
use closer_v.Prelude.{
  ℕ, suc, ◌+◌, ◌≤◌, ◌<◌, Bool, true, false, ◌≡◌, ap, ◌⊎◌, inl, inr, none, some, List, [], ◌∷◌,
  length, arith, Option-cases, All, String,
}
use closer_v.Domain.Values.{Uuid, Key, Instant, TimeText, text_before}
use closer_v.Domain.Texts.{le_lt_trans}
use closer_v.Domain.Model.{FollowUpJobRecord}
use closer_v.Store.State.{State, Result, ok, err}
use closer_v.Store.FollowUps.{
  is_due, lease, next_due, claim_due_follow_up, finish_attempt, fail_attempt, complete_follow_up,
  fail_follow_up,
}
use closer_v.Store.FollowUps.Queue.{NotBefore}
use closer_v.Store.FollowUps.Leases.{claim_some}
use closer_v.Worker.{
  Worker, Reading, idle, settle, proceed, report, report_failure, report_success, attempt, run_once,
  run_cycles,
}
use closer_v.Worker.Due.{
  count_due, is_due-later, count_due-later, count_due-update_first-le, count_due-update_first-lt,
  end_attempt-count_due, none_due, some_due,
}

finished_later :
    (at : TimeText) (end : Instant) (f : FollowUpJobRecord)
    → is_due at (finish_attempt end f) ≡ false
finished_later at end f = ground arith

leased_later :
    (at : TimeText) (worker : Key) (until : TimeText)
    → text_before at until ≡ true
    → (f : FollowUpJobRecord) → is_due at (lease worker until f) ≡ false
leased_later at worker until h f = ground (arith, h)

failed_later :
    (at : TimeText) (code : String) (retry : TimeText)
    → text_before at retry ≡ true
    → (f : FollowUpJobRecord) → is_due at (fail_attempt code (some retry) f) ≡ false
failed_later at code retry h f = ground (arith, h)

claim-count_due :
    (at : TimeText) (worker : Key) (now until : TimeText) (s : State) (f : FollowUpJobRecord)
    → NotBefore now at
    → text_before at until ≡ true
    → next_due now s.follow_ups ≡ some f
    → count_due at (claim_due_follow_up worker now until s).1.follow_ups < count_due at s.follow_ups
claim-count_due at worker now until s f h later e = rw (claim_some worker now until s f e) (
    count_due-update_first-lt at _ (lease worker until) s.follow_ups
      (leased_later at worker until later) (λ g t. is_due-later now at h g (ground (arith, t)))
      (some_due now s.follow_ups f e))

claim-keeps :
    (at : TimeText) (worker : Key) (now until : TimeText) (s : State) (f : FollowUpJobRecord)
    → text_before at until ≡ true
    → next_due now s.follow_ups ≡ some f
    → count_due at (claim_due_follow_up worker now until s).1.follow_ups ≤ count_due at s.follow_ups
claim-keeps at worker now until s f later e = rw (claim_some worker now until s f e) (
    count_due-update_first-le at _ (lease worker until) s.follow_ups
      (leased_later at worker until later))

claim_idle :
    (worker : Key) (now until : TimeText) (s : State)
    → next_due now s.follow_ups ≡ none
    → claim_due_follow_up worker now until s ≡ (ok none, s)
unfolding claim_due_follow_up
claim_idle worker now until s e = ground (arith, e)

claim_busy :
    (worker : Key) (now until : TimeText) (s : State) (f : FollowUpJobRecord)
    → next_due now s.follow_ups ≡ some f
    → claim_due_follow_up worker now until s
      ≡ (ok (some (lease worker until f)), (claim_due_follow_up worker now until s).1)
unfolding claim_due_follow_up
claim_busy worker now until s f e = ground (arith, e)

module _ {ℓ} {W : Type ℓ} (key_text : Uuid → ℕ → Key)
    (send : FollowUpJobRecord → Key → W → Bool × W) (iso : Instant → TimeText) (k : Worker)
    (t : TimeText) (at : Instant) (h : text_before t (iso (at + 60000)) ≡ true) where
  report_failure-count_due :
      (job : FollowUpJobRecord) (key : Key) (s : State)
      → count_due t (report_failure key_text send iso k job key at s).1.follow_ups
        ≤ count_due t s.follow_ups
  unfolding report_failure fail_follow_up
  report_failure-count_due job key s =
      end_attempt-count_due t (fail_attempt "MOCK_DISPATCH_FAILED" (some (iso (at + 60000)))) job.id
        k.worker_id key s (failed_later t "MOCK_DISPATCH_FAILED" (iso (at + 60000)) h)

  complete-count_due :
      (job : FollowUpJobRecord) (key : Key) (s : State)
      → count_due t (complete_follow_up job.id k.worker_id key at s).1.follow_ups
        ≤ count_due t s.follow_ups
  unfolding complete_follow_up
  complete-count_due job key s =
      end_attempt-count_due t (finish_attempt at) job.id k.worker_id key s (finished_later t at)

  settle-count_due :
      (job : FollowUpJobRecord) (key : Key) (n : ℕ) (r : Result (Unit {0}) × State)
      → count_due t r.1.follow_ups ≤ n
      → count_due t (settle key_text send iso k job key at r).1.follow_ups ≤ n
  settle-count_due job key n (ok u, s) c = c
  settle-count_due job key n (err e, s) c =
      let failed = report_failure-count_due job key s in omega (arith, failed, c)

  report-count_due :
      (sent : Bool) (job : FollowUpJobRecord) (key : Key) (s : State)
      → count_due t (report key_text send iso sent k job key at s).1.follow_ups
        ≤ count_due t s.follow_ups
  unfolding report_success
  report-count_due true job key s =
      settle-count_due job key (count_due t s.follow_ups)
        (complete_follow_up job.id k.worker_id key at s) (complete-count_due job key s)
  report-count_due false job key s = report_failure-count_due job key s

  attempt-count_due :
      (job : FollowUpJobRecord) (s : State) (w : W)
      → count_due t (attempt key_text send iso k job at s w).1.follow_ups ≤ count_due t s.follow_ups
  unfolding attempt
  attempt-count_due job s w =
      let key = key_text job.id (job.attempt_count + 1) in
      report-count_due (send job key w).0 job key s

-- A cycle that claims from `first` until `last`, and whose lease and retry are after `last`.
pub record IsTimely (iso : Instant → TimeText) (k : Worker) (first last : TimeText) (c : Reading)
    : Type 0 where
  pub begun : NotBefore first (iso c.now)
  pub over : NotBefore (iso c.now) last
  pub leased : text_before last (iso (c.now + k.lease_milliseconds)) ≡ true
  pub retried : text_before last (iso (c.at + 60000)) ≡ true

module _ {ℓ} {W : Type ℓ} (key_text : Uuid → ℕ → Key)
    (send : FollowUpJobRecord → Key → W → Bool × W) (iso : Instant → TimeText) (k : Worker) where
  run_once_idle :
      (c : Reading) (s : State) (w : W)
      → next_due (iso c.now) s.follow_ups ≡ none
      → run_once key_text send iso k c.now c.at s w ≡ (ok idle, s, w)
  unfolding run_once
  run_once_idle c s w e =
      ap (proceed key_text send iso k c.at w)
        (claim_idle k.worker_id (iso c.now) (iso (c.now + k.lease_milliseconds)) s e)

  run_once_busy :
      (c : Reading) (s : State) (w : W) (f : FollowUpJobRecord)
      → next_due (iso c.now) s.follow_ups ≡ some f
      → run_once key_text send iso k c.now c.at s w
        ≡ attempt key_text send iso k
            (lease k.worker_id (iso (c.now + k.lease_milliseconds)) f)
            c.at
            (claim_due_follow_up k.worker_id (iso c.now) (iso (c.now + k.lease_milliseconds)) s).1
            w
  unfolding run_once
  run_once_busy c s w f e =
      ap (proceed key_text send iso k c.at w)
        (claim_busy k.worker_id (iso c.now) (iso (c.now + k.lease_milliseconds)) s f e)

  -- A cycle that claims makes fewer follow-ups due at any time that is not before its own and is
  -- before its lease and its retry.
  run_once-count_due :
      (t : TimeText) (c : Reading) (s : State) (w : W) (f : FollowUpJobRecord)
      → NotBefore (iso c.now) t
      → text_before t (iso (c.now + k.lease_milliseconds)) ≡ true
      → text_before t (iso (c.at + 60000)) ≡ true
      → next_due (iso c.now) s.follow_ups ≡ some f
      → count_due t (run_once key_text send iso k c.now c.at s w).1.follow_ups
        < count_due t s.follow_ups
  run_once-count_due t c s w f over leased retried e =
      let until = iso (c.now + k.lease_milliseconds) in
      let claimed = claim-count_due t k.worker_id (iso c.now) until s f over leased e in
      let done =
        attempt-count_due key_text send iso k t c.at retried (lease k.worker_id until f)
          (claim_due_follow_up k.worker_id (iso c.now) until s).1 w in
      rw (run_once_busy c s w f e) (omega (arith, claimed, done))

  run_once-keeps :
      (t : TimeText) (c : Reading) (s : State) (w : W)
      → text_before t (iso (c.now + k.lease_milliseconds)) ≡ true
      → text_before t (iso (c.at + 60000)) ≡ true
      → count_due t (run_once key_text send iso k c.now c.at s w).1.follow_ups
        ≤ count_due t s.follow_ups
  run_once-keeps t c s w leased retried = elim (Option-cases (next_due (iso c.now) s.follow_ups)) [
    | inl e ↦ rw (run_once_idle c s w e) (omega arith)
    | inr (f, e) ↦
        let until = iso (c.now + k.lease_milliseconds) in
        let claimed = claim-keeps t k.worker_id (iso c.now) until s f leased e in
        let done =
          attempt-count_due key_text send iso k t c.at retried (lease k.worker_id until f)
            (claim_due_follow_up k.worker_id (iso c.now) until s).1 w in
        rw (run_once_busy c s w f e) (omega (arith, claimed, done))
  ]

  -- One cycle: there is less to do, or nothing is left that was due at first.
  run_once-progress :
      (first last : TimeText) (n : ℕ) (c : Reading) (s : State) (w : W)
      → IsTimely iso k first last c
      → (count_due last s.follow_ups ≤ suc n) ⊎ (count_due first s.follow_ups ≡ 0)
      → let s' = (run_once key_text send iso k c.now c.at s w).1 in
        (count_due last s'.follow_ups ≤ n) ⊎ (count_due first s'.follow_ups ≡ 0)
  run_once-progress first last n c s w h todo =
      elim (Option-cases (next_due (iso c.now) s.follow_ups)) [
        | inl e ↦
            let empty = none_due (iso c.now) s.follow_ups e in
            let fewer = count_due-later first (iso c.now) h.begun s.follow_ups in
            rw (run_once_idle c s w e) (inr (omega (arith, empty, fewer)))
        | inr (f, e) ↦ elim todo [
          | inl most ↦
              let less = run_once-count_due last c s w f h.over h.leased h.retried e in
              inl (omega (arith, less, most))
          | inr nothing ↦
              let kept = run_once-keeps first c s w (early _ h.leased) (early _ h.retried) in
              inr (omega (arith, kept, nothing))
        ]
      ]
    where
      early : (until : TimeText) → text_before last until ≡ true → text_before first until ≡ true
      early until later =
          le_lt_trans first (iso c.now) until h.begun
            (le_lt_trans (iso c.now) last until h.over later)

  cycles_done :
      (first last : TimeText) (cs : List Reading) (s : State) (w : W)
      → NotBefore first last
      → All (IsTimely iso k first last) cs
      → (count_due last s.follow_ups ≤ length cs) ⊎ (count_due first s.follow_ups ≡ 0)
      → count_due first (run_cycles key_text send iso cs k s w).0.follow_ups ≡ 0
  unfolding run_cycles
  cycles_done first last [] s w span timely (inl none_left) =
      let fewer = count_due-later first last span s.follow_ups in omega (arith, none_left, fewer)
  cycles_done first last [] s w span timely (inr nothing) = nothing
  cycles_done first last (c ∷ cs) s w span timely todo =
      cycles_done first last cs (run_once key_text send iso k c.now c.at s w).1
        (run_once key_text send iso k c.now c.at s w).2 span timely.1
        (run_once-progress first last (length cs) c s w timely.0 todo)

  -- The worker gets through its queue: for any dispatcher, whether `send` returns or throws, and
  -- whatever follow-ups the state holds, cycles that claim between two times, as many as there are
  -- follow-ups due at the last of them, leave none that is due at the first, where the leases and the
  -- retries of these cycles are after the last.
  pub run_cycles-count_due :
      (first last : TimeText) (cs : List Reading) (s : State) (w : W)
      → NotBefore first last
      → All (IsTimely iso k first last) cs
      → count_due last s.follow_ups ≤ length cs
      → count_due first (run_cycles key_text send iso cs k s w).0.follow_ups ≡ 0
  run_cycles-count_due first last cs s w span timely enough =
      cycles_done first last cs s w span timely (inl enough)
