-- ===== src/Store/Recovery/Approval.antt =====
-- The approval of a recovery action.
use closer_v.Prelude.{true, false, ◌≡◌, ◌⊎◌, inl, inr, some, find?, arith, Option-cases}
use closer_v.Domain.Values.{Uuid, Instant}
use closer_v.Domain.Opportunity.{RecoveryActionRecord}
use closer_v.Domain.Model.{AuthenticatedIdentity}
use closer_v.Store.State.{State, ok}
use closer_v.Store.Lookup.{is_some, has_passed}
use closer_v.Store.Recovery.{
  is_action, awaits_approval, approve, approve_found, approve_recovery_action, expire,
}

module _ (tenant opportunity action : Uuid) (actor : AuthenticatedIdentity) (now : Instant)
    (s : State) where
  -- Only an action that waits for approval and has not expired is approved: where the call returns
  -- an action, it is either one that had been approved before, returned as it stands with nothing
  -- written, or one that waited, and then it is ready, carries the one who approved it and the
  -- time, and its approval had not expired.
  pub approve-waited :
      {a : RecoveryActionRecord}
      → (approve_recovery_action tenant opportunity action actor now s).0 ≡ ok a
      → (old : RecoveryActionRecord) × (find?
            (is_action tenant opportunity action)
            s.recovery_actions
          ≡ some old)
        × (((a ≡ old)
              × (is_some old.approved_at ≡ true)
              × ((approve_recovery_action tenant opportunity action actor now s).1 ≡ s))
            ⊎ ((awaits_approval old.status ≡ true)
                × (has_passed old.valid_until now ≡ false)
                × (a ≡ approve actor.user_id now old)))
  unfolding approve_recovery_action approve_found expire
  approve-waited {a = a} h =
      elim (Option-cases (find? (is_action tenant opportunity action) s.recovery_actions)) [
        | inl e ↦ absurd (ground (arith, e, h))
        | inr (old, e) ↦ (old, e, ground (arith, e, h))
      ]
