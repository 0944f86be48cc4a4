-- ===== src/Scoring/Suppressed.antt =====
-- How far the penalties bring a score down.
use closer_v.Prelude.{ℕ, ◌≤◌, ◌≡◌, ◌⊎◌, Bool, true, false, not, ◌||◌, String, arith}
use closer_v.Prelude.Int.{ℤ, pos, neg, ◌+ℤ◌, ◌≤ℤ◌, neg_parts, int_laws}
use closer_v.Domain.Values.{ReasonCode}
use closer_v.Domain.Opportunity.{OpportunityObservation}
use closer_v.Scoring.{ScoreAccumulator, add_if, clamp, recovery_signals, score}

-- The value is at most `k`.
record AtMost (k : ℤ) (acc : ScoreAccumulator) : Type 0 where
  bound : acc.value ≤ℤ k

gain :
    (b : Bool) (acc : ScoreAccumulator) (n : ℕ) (c : ReasonCode) (e : String) {k : ℤ}
    → AtMost k acc
    → AtMost (k +ℤ pos n) (add_if b acc (pos n) c e)
unfolding add_if
gain true acc n c e h = record { bound = omega (int_laws, h.bound) }
gain false acc n c e h = record { bound = omega (int_laws, h.bound) }

loss_not_taken :
    (b : Bool) (acc : ScoreAccumulator) (n : ℕ) (c : ReasonCode) (e : String) {k : ℤ}
    → AtMost k acc
    → AtMost k (add_if b acc (neg n) c e)
unfolding add_if
loss_not_taken true acc n c e h = record { bound = omega (int_laws, h.bound, neg_parts n) }
loss_not_taken false acc n c e h = h

loss :
    (b : Bool) (acc : ScoreAccumulator) (n : ℕ) (c : ReasonCode) (e : String) {k : ℤ}
    → b ≡ true
    → AtMost k acc
    → AtMost (k +ℤ neg n) (add_if b acc (neg n) c e)
unfolding add_if
loss true acc n c e on h = record { bound = omega (int_laws, h.bound) }
loss false acc n c e on h = absurd (cc)

clamp-le : (v : ℤ) (k : ℕ) → v ≤ℤ pos k → clamp v ≤ k
clamp-le v k h = ground arith

recovery_signals-AtMost :
    (o : OpportunityObservation)
    → (o.opted_out || not o.operational_communication_allowed) ≡ true
    → AtMost (pos 10) (recovery_signals o)
unfolding recovery_signals ◌+ℤ◌
recovery_signals-AtMost o h = loss_not_taken _ _ 15 _ _ (
    loss _ _ 100 _ _ h (
      loss_not_taken _ _ 70 _ _ (
        loss_not_taken _ _ 20 _ _ (
          gain _ _ _ _ _ (
            gain _ _ _ _ _
              (gain _ _ _ _ _ (gain _ _ _ _ _ {k = pos 35} (record { bound = omega arith }))))))))

-- Where contact is suppressed, by an opt-out or because it is not allowed, the recovery score is
-- at most 10, whatever else speaks for a contact.
pub suppressed_recovery_score :
    (o : OpportunityObservation)
    → (o.opted_out ≡ true) ⊎ (o.operational_communication_allowed ≡ false)
    → (score o).recovery.value ≤ 10
unfolding score
suppressed_recovery_score o h = clamp-le _ 10 (recovery_signals-AtMost o (ground arith)).bound
