-- ===== src/Scoring/Explained.antt =====
-- The reason codes explain the points.
use Prim.Native.Nat.{min}
use closer_v.Prelude.{
  ◌+◌, ◌*◌, ◌≡◌, refl, sym, ap, Bool, true, false, Option, none, some, List, [], ◌∷◌, ◌++◌, String,
  leb, if-both,
}
use closer_v.Prelude.Int.{ℤ, pos, neg, ◌+ℤ◌, +ℤ_assoc, int_laws}
use closer_v.Domain.Values.{ReasonCode, Cents}
use closer_v.Domain.Opportunity.{ExplainableScore, OpportunityObservation}
use closer_v.Scoring.{
  ScoreAccumulator, add, add_if, clamp, finish, add_value, intent_signals, revenue_signals,
  recovery_signals, urgency_signals, score,
}

-- The points that go with a reason code, score by score.
abbrev pub intent_points : OpportunityObservation → ReasonCode → ℤ
intent_points o ReasonCode.inquiry_exists = pos 15
intent_points o ReasonCode.customer_replied = pos 20
intent_points o ReasonCode.explicit_service_intent = pos 25
intent_points o ReasonCode.booking_requested = pos 30
intent_points o ReasonCode.estimate_engaged = pos (min 20 (8 + o.estimate_viewed_count * 4))
intent_points o ReasonCode.explicit_rejection = neg 60
intent_points o ReasonCode.do_not_contact = neg 100
intent_points o _ = pos 0

abbrev pub revenue_points : ReasonCode → ℤ
revenue_points ReasonCode.very_high_value = pos 80
revenue_points ReasonCode.high_value = pos 65
revenue_points ReasonCode.meaningful_value = pos 45
revenue_points ReasonCode.known_value = pos 25
revenue_points ReasonCode.above_average_ticket = pos 10
revenue_points ReasonCode.value_not_yet_known = pos 10
revenue_points ReasonCode.high_value_service_type = pos 15
revenue_points _ = pos 0

abbrev pub recovery_points : ReasonCode → ℤ
recovery_points ReasonCode.customer_engaged = pos 20
recovery_points ReasonCode.recent_customer_activity = pos 20
recovery_points ReasonCode.follow_up_window_open = pos 15
recovery_points ReasonCode.estimate_viewed_repeatedly = pos 20
recovery_points ReasonCode.multiple_attempts = neg 20
recovery_points ReasonCode.explicit_rejection = neg 70
recovery_points ReasonCode.contact_suppressed = neg 100
recovery_points ReasonCode.human_review_active = neg 15
recovery_points _ = pos 0

abbrev pub urgency_points : ReasonCode → ℤ
urgency_points ReasonCode.emergency_service = pos 80
urgency_points ReasonCode.missed_inbound_call = pos 25
urgency_points ReasonCode.customer_active_now = pos 20
urgency_points ReasonCode.booking_requested = pos 15
urgency_points _ = pos 0

abbrev pub total_points : (ReasonCode → ℤ) → List ReasonCode → ℤ
total_points w [] = pos 0
total_points w (c ∷ cs) = w c +ℤ total_points w cs

total_points-append :
    (w : ReasonCode → ℤ) (cs : List ReasonCode) (c : ReasonCode)
    → total_points w (cs ++ c ∷ []) ≡ total_points w cs +ℤ w c
total_points-append w [] c = omega int_laws
total_points-append w (d ∷ cs) c =
    rw (total_points-append w cs c) (sym (+ℤ_assoc (w d) (total_points w cs) (w c)))

-- What the accumulator has counted so far is the base and the points of the codes.
record IsExplained (w : ReasonCode → ℤ) (base : ℤ) (acc : ScoreAccumulator) : Type 0 where
  counted : acc.value ≡ base +ℤ total_points w acc.reasons

-- The score that the codes stand for.
abbrev pub Explains : (ReasonCode → ℤ) → ℤ → ExplainableScore → Type 0
Explains w base s = s.value ≡ clamp (base +ℤ total_points w s.reason_codes)

module _ (w : ReasonCode → ℤ) (base : ℤ) where
  add-IsExplained :
      (acc : ScoreAccumulator) (p : ℤ) (c : ReasonCode) (e : String)
      → w c ≡ p
      → IsExplained w base acc
      → IsExplained w base (add acc p c e)
  unfolding add
  add-IsExplained acc p c e h i = record {
    counted = rw (total_points-append w acc.reasons c, i.counted, h) (+ℤ_assoc base _ p);
  }

  add_if-IsExplained :
      (b : Bool) (acc : ScoreAccumulator) (p : ℤ) (c : ReasonCode) (e : String)
      → w c ≡ p
      → IsExplained w base acc
      → IsExplained w base (add_if b acc p c e)
  unfolding add_if
  add_if-IsExplained true acc p c e h i = add-IsExplained acc p c e h i
  add_if-IsExplained false acc p c e h i = i

  finish-Explains : (acc : ScoreAccumulator) → IsExplained w base acc → Explains w base (finish acc)
  unfolding finish
  finish-Explains acc i = ap clamp i.counted

intent_signals-IsExplained :
    (o : OpportunityObservation) → IsExplained (intent_points o) (pos 0) (intent_signals o)
unfolding intent_signals ◌+ℤ◌
intent_signals-IsExplained o =
    let go = add_if-IsExplained (intent_points o) (pos 0) in
    go _ _ _ _ _ refl (
      go _ _ _ _ _ refl (
        go _ _ _ _ _ refl
          (go _ _ _ _ _ refl (go _ _ _ _ _ refl (go _ _ _ _ _ refl (record { counted = refl }))))))

add_value-IsExplained :
    (s : ScoreAccumulator) (value average : Option Cents)
    → IsExplained revenue_points (pos 10) s
    → IsExplained revenue_points (pos 10) (add_value s value average)
unfolding add_value
add_value-IsExplained s none average i = add-IsExplained revenue_points (pos 10) s _ _ _ refl i
add_value-IsExplained s (some v) average i =
    let tier = λ (p : ℤ) (c : ReasonCode) (e : String) (h : revenue_points c ≡ p).
      add-IsExplained revenue_points (pos 10) s p c e h i in
    add_if-IsExplained revenue_points (pos 10) _ _ _ _ _ refl (
      if-both (IsExplained revenue_points (pos 10)) (leb 1500000 v)
        (tier _ ReasonCode.very_high_value "Estimated value is at least $15,000" refl)
        (if-both (IsExplained revenue_points (pos 10)) (leb 750000 v)
          (tier _ ReasonCode.high_value "Estimated value is at least $7,500" refl)
          (if-both (IsExplained revenue_points (pos 10)) (leb 250000 v)
            (tier _ ReasonCode.meaningful_value "Estimated value is at least $2,500" refl)
            (tier _ ReasonCode.known_value "Opportunity has a known value" refl))))

revenue_signals-IsExplained :
    (o : OpportunityObservation) → IsExplained revenue_points (pos 10) (revenue_signals o)
unfolding revenue_signals ◌+ℤ◌
revenue_signals-IsExplained o =
    add_if-IsExplained revenue_points (pos 10) _ _ _ _ _ refl
      (add_value-IsExplained _ _ _ (record { counted = refl }))

recovery_signals-IsExplained :
    (o : OpportunityObservation) → IsExplained recovery_points (pos 35) (recovery_signals o)
unfolding recovery_signals ◌+ℤ◌
recovery_signals-IsExplained o =
    let go = add_if-IsExplained recovery_points (pos 35) in
    go _ _ _ _ _ refl (
      go _ _ _ _ _ refl (
        go _ _ _ _ _ refl (
          go _ _ _ _ _ refl (
            go _ _ _ _ _ refl (
              go _ _ _ _ _ refl
                (go _ _ _ _ _ refl (go _ _ _ _ _ refl (record { counted = refl }))))))))

urgency_signals-IsExplained :
    (o : OpportunityObservation) → IsExplained urgency_points (pos 10) (urgency_signals o)
unfolding urgency_signals ◌+ℤ◌
urgency_signals-IsExplained o =
    let go = add_if-IsExplained urgency_points (pos 10) in
    go _ _ _ _ _ refl
      (go _ _ _ _ _ refl (go _ _ _ _ _ refl (go _ _ _ _ _ refl (record { counted = refl }))))

-- Each of the four scores is the base and the points of exactly the reason codes that it reports,
-- brought into the range from 0 to 100.
pub score_explained :
    (o : OpportunityObservation)
    → Explains (intent_points o) (pos 0) (score o).intent
      × Explains revenue_points (pos 10) (score o).revenue
      × Explains recovery_points (pos 35) (score o).recovery
      × Explains urgency_points (pos 10) (score o).urgency
unfolding score
score_explained o = (
  finish-Explains _ _ _ (intent_signals-IsExplained o),
  finish-Explains _ _ _ (revenue_signals-IsExplained o),
  finish-Explains _ _ _ (recovery_signals-IsExplained o),
  finish-Explains _ _ _ (urgency_signals-IsExplained o),
)
