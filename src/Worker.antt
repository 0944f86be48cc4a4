-- ===== src/Worker.antt =====
-- The worker of the follow-ups (`FollowUpWorker` and the mock dispatcher of
-- server/jobs/followUpWorker.ts, and the loop of server/worker.ts) over the in-memory store. A
-- dispatcher is a function on a world of its own, which says whether `send` returned. A cycle reads
-- the clock before the claim and after the dispatch; `iso` writes a time as `toISOString` does, and
-- `key_text` makes the attempt key of an id and a number.
pub mod Due
pub mod Drain
use closer_v.Prelude.{
  ℕ, zero, suc, ◌+◌, Bool, true, false, Option, none, some, List, [], ◌∷◌, ◌++◌, any, if◌then◌else◌,
  String,
}
use closer_v.Domain.Values.{Uuid, Key, Instant, TimeText}
use closer_v.Domain.Model.{FollowUpJobRecord}
use closer_v.Store.State.{State, Result, Failure, ok, err}
use closer_v.Store.Lookup.{same_text}
use closer_v.Store.FollowUps.{claim_due_follow_up, complete_follow_up, fail_follow_up}

pub data RunOutcome : Type 0 where
  idle completed failed : RunOutcome

pub record Worker : Type 0 where
  pub worker_id : Key
  pub lease_milliseconds : ℕ

-- The clock before the claim of a cycle, and after its dispatch.
pub record Reading : Type 0 where
  pub now : Instant
  pub at : Instant

-- An entry of `DeterministicMockFollowUpDispatcher.sent`.
pub record SentEntry : Type 0 where
  pub follow_up_id : Uuid
  pub attempt_key : Key

abbrev pub has_attempt : Key → SentEntry → Bool
has_attempt key e = same_text e.attempt_key key

-- The mock's `send` never throws, and keeps a key that it has sent once.
unfoldable pub mock_send : FollowUpJobRecord → Key → List SentEntry → Bool × List SentEntry
mock_send job key sent =
    if any (has_attempt key) sent
    then (true, sent)
    else (true, sent ++ record { follow_up_id = job.id; attempt_key = key } ∷ [])

module _ {ℓ} {W : Type ℓ} (key_text : Uuid → ℕ → Key)
    (send : FollowUpJobRecord → Key → W → Bool × W) (iso : Instant → TimeText) where
  -- The `catch` block: the failure is reported, with a retry a minute later.
  unfoldable pub report_failure :
      Worker → FollowUpJobRecord → Key → Instant → State → Result RunOutcome × State
  report_failure k job key at s =
      let (r, s') =
        fail_follow_up job.id k.worker_id key "MOCK_DISPATCH_FAILED" (some (iso (at + 60000))) s in
      (elim r [ ok u ↦ ok failed | err e ↦ err e ], s')

  -- The `try` block after `send` returned, with its `catch`: an error of the report is caught.
  abbrev pub settle :
      Worker
      → FollowUpJobRecord
      → Key
      → Instant
      → Result (Unit {0}) × State
      → Result RunOutcome × State
  settle k job key at (ok u, s) = (ok completed, s)
  settle k job key at (err e, s) = report_failure k job key at s

  unfoldable pub report_success :
      Worker → FollowUpJobRecord → Key → Instant → State → Result RunOutcome × State
  report_success k job key at s =
      settle k job key at (complete_follow_up job.id k.worker_id key at s)

  abbrev pub report :
      Bool → Worker → FollowUpJobRecord → Key → Instant → State → Result RunOutcome × State
  report true k job key at s = report_success k job key at s
  report false k job key at s = report_failure k job key at s

  -- What a run does with the job that it has claimed.
  unfoldable pub attempt :
      Worker → FollowUpJobRecord → Instant → State → W → Result RunOutcome × State × W
  attempt k job at s w =
      let key = key_text job.id (job.attempt_count + 1) in
      let (sent, w') = send job key w in let (r, s') = report sent k job key at s in (r, s', w')

  abbrev pub proceed :
      Worker
      → Instant
      → W
      → Result (Option FollowUpJobRecord) × State
      → Result RunOutcome × State × W
  proceed k at w (err e, s) = (err e, s, w)
  proceed k at w (ok none, s) = (ok idle, s, w)
  proceed k at w (ok (some job), s) = attempt k job at s w

  unfoldable pub run_once : Worker → Instant → Instant → State → W → Result RunOutcome × State × W
  run_once k now at s w =
      proceed k at w
        (claim_due_follow_up k.worker_id (iso now) (iso (now + k.lease_milliseconds)) s)

  -- Cycles of the worker's loop, each with its readings of the clock. It goes on after an error.
  unfoldable pub run_cycles : List Reading → Worker → State → W → State × W
  run_cycles [] k s w = (s, w)
  run_cycles (c ∷ cs) k s w = let (r, s', w') = run_once k c.now c.at s w in run_cycles cs k s' w'
