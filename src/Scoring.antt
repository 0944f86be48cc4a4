-- ===== src/Scoring.antt =====
-- The rule-based scores of an opportunity (server/application/opportunityScoring.ts).
-- An age is kept in milliseconds and compared with whole hours; the source divides first, which
-- gives the same comparisons. Every amount that is added is whole, so `Math.round` changes nothing.
pub mod Explained
pub mod Suppressed
use Prim.Native.Nat.{min}
use Prim.Native.String.{◌++◌ as append_text}
use mathlib.Core.Option
use closer_v.Prelude.{
  ℕ, ◌+◌, ◌-◌, ◌*◌, String, Bool, true, false, not, ◌&&◌, ◌||◌, Option, none, some, List, [], ◌∷◌,
  ◌++◌, ltb, leb, ◌==◌, if◌then◌else◌,
}
use closer_v.Prelude.Int.{ℤ, pos, negsuc, neg, ◌+ℤ◌}
use closer_v.Domain.Values.{
  Instant, Cents, hour, ReasonCode, OpportunityStatus, HvacOpportunityType, OpportunitySource,
}
use closer_v.Domain.Opportunity.{ExplainableScore, OpportunityScores, OpportunityObservation}

abbrev pub opportunity_scoring_version : String
opportunity_scoring_version = "hvac-rules-v1"

pub record ScoreAccumulator : Type 0 where
  pub value : ℤ
  pub reasons : List ReasonCode
  pub explanations : List String

unfoldable pub add : ScoreAccumulator → ℤ → ReasonCode → String → ScoreAccumulator
add acc points code explanation = record {
  value = acc.value +ℤ points;
  reasons = acc.reasons ++ code ∷ [];
  explanations = acc.explanations ++ explanation ∷ [];
}

-- `if (test) add(...)`
unfoldable pub add_if : Bool → ScoreAccumulator → ℤ → ReasonCode → String → ScoreAccumulator
unfolding add
add_if test acc points code explanation = if test then add acc points code explanation else acc

-- `Math.max(0, Math.min(100, Math.round(value)))`
abbrev pub clamp : ℤ → ℕ
clamp (pos n) = min 100 n
clamp (negsuc n) = 0

-- `texts.join(separator)`
join : String → List String → String
join separator [] = ""
join separator (t ∷ []) = t
join separator (t ∷ u ∷ ts) = append_text t (append_text separator (join separator (u ∷ ts)))

-- `text || fallback`
text_or : String → String → String
text_or String.[] fallback = fallback
text_or t fallback = t

unfoldable pub finish : ScoreAccumulator → ExplainableScore
unfolding text_or join
finish acc = record {
  value = clamp acc.value;
  reason_codes = acc.reasons;
  explanation = text_or (join " · " acc.explanations) "No strong signal is available yet";
  version = opportunity_scoring_version;
}

abbrev pub elapsed : Instant → Option Instant → Option ℕ
elapsed now none = none
elapsed now (some value) = some (now - value)

-- `age !== null && age <= bound`
abbrev pub at_most : Option ℕ → ℕ → Bool
at_most none bound = false
at_most (some age) bound = leb age bound

abbrev pub at_least : Option ℕ → ℕ → Bool
at_least none bound = false
at_least (some age) bound = leb bound age

abbrev pub is_do_not_contact : OpportunityStatus → Bool
is_do_not_contact OpportunityStatus.do_not_contact = true
is_do_not_contact _ = false

abbrev pub is_high_value_type : HvacOpportunityType → Bool
is_high_value_type HvacOpportunityType.system_replacement = true
is_high_value_type HvacOpportunityType.installation = true
is_high_value_type HvacOpportunityType.commercial_service = true
is_high_value_type _ = false

abbrev pub is_emergency : HvacOpportunityType → Bool
is_emergency HvacOpportunityType.emergency_repair = true
is_emergency _ = false

abbrev pub is_missed_call : OpportunitySource → Bool
is_missed_call OpportunitySource.missed_call = true
is_missed_call _ = false

unfoldable pub intent_signals : OpportunityObservation → ScoreAccumulator
intent_signals o =
    let start : ScoreAccumulator = record {
      value = pos 15;
      reasons = ReasonCode.inquiry_exists ∷ [];
      explanations = "Customer inquiry exists" ∷ [];
    } in
    let s1 =
      add_if o.has_customer_reply start (pos 20) ReasonCode.customer_replied
        "Customer has engaged in the conversation" in
    let s2 =
      add_if o.has_explicit_service_intent s1 (pos 25) ReasonCode.explicit_service_intent
        "Customer named a service need" in
    let s3 =
      add_if o.has_booking_request s2 (pos 30) ReasonCode.booking_requested
        "Customer requested an appointment" in
    let s4 =
      add_if (o.has_estimate && ltb 0 o.estimate_viewed_count) s3
        (pos (min 20 (8 + o.estimate_viewed_count * 4))) ReasonCode.estimate_engaged
        "Customer viewed the estimate" in
    let s5 =
      add_if o.has_explicit_rejection s4 (neg 60) ReasonCode.explicit_rejection
        "Customer explicitly rejected the opportunity" in
    add_if (is_do_not_contact o.status) s5 (neg 100) ReasonCode.do_not_contact
      "Customer must not be contacted"

unfoldable pub intent_score : OpportunityObservation → ExplainableScore
unfolding intent_signals finish
intent_score o = finish (intent_signals o)

-- `average && value >= average * 1.5`, doubled.
abbrev pub is_above : Option Cents → Cents → Bool
is_above none v = false
is_above (some a) v = not (a == 0) && leb (a * 3) (v * 2)

-- The chain of thresholds for a known value, and the comparison with the average ticket.
unfoldable pub add_value : ScoreAccumulator → Option Cents → Option Cents → ScoreAccumulator
add_value s none average =
    add s (pos 10) ReasonCode.value_not_yet_known "Value has not been validated yet"
add_value s (some value) average =
    let tier =
      if leb 1500000 value
      then add s (pos 80) ReasonCode.very_high_value "Estimated value is at least $15,000"
      else if leb 750000 value
      then add s (pos 65) ReasonCode.high_value "Estimated value is at least $7,500"
      else if leb 250000 value
      then add s (pos 45) ReasonCode.meaningful_value "Estimated value is at least $2,500"
      else add s (pos 25) ReasonCode.known_value "Opportunity has a known value" in
    add_if (is_above average value) tier (pos 10) ReasonCode.above_average_ticket
      "Value is materially above the business average"

unfoldable pub revenue_signals : OpportunityObservation → ScoreAccumulator
revenue_signals o =
    let start : ScoreAccumulator = record { value = pos 10; reasons = []; explanations = [] } in
    let s1 = add_value start o.estimated_value_cents o.average_ticket_cents in
    add_if (is_high_value_type o.opportunity_type) s1 (pos 15) ReasonCode.high_value_service_type
      "Service type commonly carries higher revenue value"

unfoldable pub revenue_score : OpportunityObservation → ExplainableScore
unfolding revenue_signals finish
revenue_score o = finish (revenue_signals o)

unfoldable pub recovery_signals : OpportunityObservation → ScoreAccumulator
recovery_signals o =
    let start : ScoreAccumulator = record { value = pos 35; reasons = []; explanations = [] } in
    let customer_age = elapsed o.now o.last_customer_activity_at in
    let business_age = elapsed o.now o.last_business_activity_at in
    let s1 =
      add_if o.has_customer_reply start (pos 20) ReasonCode.customer_engaged
        "Customer has already replied" in
    let s2 =
      add_if (at_most customer_age (2 * hour)) s1 (pos 20) ReasonCode.recent_customer_activity
        "Customer was active within two hours" in
    let s3 =
      add_if (at_least business_age (12 * hour) && at_most business_age (72 * hour)) s2 (pos 15)
        ReasonCode.follow_up_window_open "The opportunity is in a useful follow-up window" in
    let s4 =
      add_if (o.has_estimate && leb 2 o.estimate_viewed_count) s3 (pos 20)
        ReasonCode.estimate_viewed_repeatedly "Estimate was viewed more than once" in
    let s5 =
      add_if (leb 3 o.follow_up_attempts) s4 (neg 20) ReasonCode.multiple_attempts
        "Several recovery attempts have already occurred" in
    let s6 =
      add_if o.has_explicit_rejection s5 (neg 70) ReasonCode.explicit_rejection
        "Customer explicitly rejected the offer" in
    let s7 =
      add_if (o.opted_out || not o.operational_communication_allowed) s6 (neg 100)
        ReasonCode.contact_suppressed "Automated contact is not allowed" in
    add_if (o.has_active_handoff || o.is_human_required) s7 (neg 15) ReasonCode.human_review_active
      "Human judgment is required before automation"

unfoldable pub recovery_score : OpportunityObservation → ExplainableScore
unfolding recovery_signals finish
recovery_score o = finish (recovery_signals o)

unfoldable pub urgency_signals : OpportunityObservation → ScoreAccumulator
urgency_signals o =
    let start : ScoreAccumulator = record { value = pos 10; reasons = []; explanations = [] } in
    let s1 =
      add_if (is_emergency o.opportunity_type) start (pos 80) ReasonCode.emergency_service
        "Customer reported an emergency repair need" in
    let s2 =
      add_if (is_missed_call o.source) s1 (pos 25) ReasonCode.missed_inbound_call
        "An inbound call was missed" in
    let customer_age = elapsed o.now o.last_customer_activity_at in
    let s3 =
      add_if (at_most customer_age hour) s2 (pos 20) ReasonCode.customer_active_now
        "Customer activity is less than one hour old" in
    add_if o.has_booking_request s3 (pos 15) ReasonCode.booking_requested
      "Customer is ready to schedule"

unfoldable pub urgency_score : OpportunityObservation → ExplainableScore
unfolding urgency_signals finish
urgency_score o = finish (urgency_signals o)

unfoldable pub score : OpportunityObservation → OpportunityScores
unfolding intent_score revenue_score recovery_score urgency_score add add_if add_value
score o = record {
  intent = intent_score o;
  revenue = revenue_score o;
  recovery = recovery_score o;
  urgency = urgency_score o;
}
