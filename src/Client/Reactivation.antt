-- ===== src/Client/Reactivation.antt =====
-- `ReactivationService` of src/application/reactivation/ReactivationService.ts.
pub mod Consent
use closer_v.Prelude.{
  ℕ, ◌+◌, ◌*◌, Bool, true, false, not, ◌&&◌, ◌||◌, ◌==◌, ltb, leb, Option, none, some, List, [],
  ◌∷◌, find?, head?, any, sort_by, String, if◌then◌else◌,
}
use closer_v.Domain.Values.{Uuid, Instant, Cents}
use closer_v.Client.Kinds.{FollowUpScenario, FollowUpStatus, LeadStatus, OpportunityLostReason}
use closer_v.Client.Entities.{
  BusinessSettings, ConsentRecord, Contact, Lead, Quote, ScheduledFollowUp,
}
use closer_v.Client.Rules.{DomainCode, Checked, passed, refused}
use closer_v.Client.Repository.{get, list, find_all}
use closer_v.Client.Database.{
  Database, business_settings_entity, consent_record_entity, contact_entity, lead_entity,
  quote_entity, scheduled_follow_up_entity,
}
use closer_v.Client.Journey.Stages.{is_lost}
use closer_v.Client.Journey.Evaluate.{or_zero, through}
use closer_v.Client.FollowUps.Schedule.{is_same_follow_up}

pub data ReactivationReason : Type 0 where
  past_interest expired_quote previously_unavailable : ReactivationReason

pub record ReactivationCandidate : Type 0 where
  pub business_id : Uuid
  pub lead_id : Uuid
  pub contact_id : Uuid
  pub conversation_id : Uuid
  pub customer_name : String
  pub service_id : Option Uuid
  pub reason : ReactivationReason
  pub inactive_since : Instant
  pub known_value_cents : Option Cents

abbrev pub eligible_reason : Option OpportunityLostReason → Option ReactivationReason
eligible_reason (some OpportunityLostReason.no_longer_interested) = some past_interest
eligible_reason (some OpportunityLostReason.quote_expired) = some expired_quote
eligible_reason (some OpportunityLostReason.unavailable) = some previously_unavailable
eligible_reason _ = none

-- `new Date(closedAt).getTime() <= now - days * 86_400_000`, of integers.
abbrev pub is_inactive : ℕ → Instant → Instant → Bool
is_inactive days closed now = leb (closed + days * 86400000) now

abbrev pub is_reachable : Option ConsentRecord → Bool
is_reachable none = false
is_reachable (some consent) = consent.marketing_allowed && not consent.opted_out

abbrev pub consent_for : Uuid → Lead → Database → Option ConsentRecord
consent_for business lead d =
    head? (find_all business (λ r. r.contact_id == lead.contact_id) d.consent_records)

abbrev pub prepared_for : Uuid → Lead → Database → Option ScheduledFollowUp
prepared_for business lead d = head? (
    find_all business (is_same_follow_up lead.conversation_id FollowUpScenario.reactivation)
      d.scheduled_follow_ups)

-- The quotes of the lead, the latest first.
abbrev pub quotes_of : Uuid → Lead → Database → List Quote
quotes_of business lead d =
    sort_by (λ a b. ltb b.updated_at a.updated_at)
      (find_all business (λ q. q.lead_id == lead.id) d.quotes)

abbrev pub new_candidate :
    Uuid → Lead → Contact → ReactivationReason → Instant → Database → ReactivationCandidate
new_candidate business lead contact reason closed d = record {
  business_id = business;
  lead_id = lead.id;
  contact_id = lead.contact_id;
  conversation_id = lead.conversation_id;
  customer_name = contact.display_name;
  service_id = lead.service_id;
  reason = reason;
  inactive_since = closed;
  known_value_cents = through (λ q. q.total_cents) (head? (quotes_of business lead d));
}

-- The candidate of a lead that passes the filter, by its contact, its consent and what waits.
abbrev pub make_candidate :
    Uuid
    → Lead
    → ReactivationReason
    → Instant
    → Database
    → Option Contact
    → Bool
    → Option ScheduledFollowUp
    → Option ReactivationCandidate
make_candidate business lead reason closed d (some contact) true none =
    some (new_candidate business lead contact reason closed d)
make_candidate business lead reason closed d _ _ _ = none

abbrev pub reachable_candidate :
    Uuid → Lead → Database → ReactivationReason → Instant → Option ReactivationCandidate
reachable_candidate business lead d reason closed =
    make_candidate business lead reason closed d (get business lead.contact_id d.contacts)
      (is_reachable (consent_for business lead d)) (prepared_for business lead d)

-- The filter of the leads, and the candidate of a lead that passes.
abbrev pub consider :
    Uuid
    → ℕ
    → Instant
    → Database
    → Lead
    → Option Instant
    → Option ReactivationReason
    → Option ReactivationCandidate
consider business days now d lead (some closed) (some reason) =
    if is_lost lead.status && is_inactive days closed now
    then reachable_candidate business lead d reason closed
    else none
consider business days now d lead _ _ = none

abbrev pub candidate_of : Uuid → ℕ → Instant → Database → Lead → Option ReactivationCandidate
candidate_of business days now d lead =
    consider business days now d lead lead.closed_at (eligible_reason lead.lost_reason)

abbrev pub add_some {ℓ} : {A : Type ℓ} → Option A → List A → List A
add_some none rest = rest
add_some (some a) rest = a ∷ rest

abbrev pub candidates_of : Uuid → ℕ → Instant → Database → List Lead → List ReactivationCandidate
candidates_of business days now d [] = []
candidates_of business days now d (lead ∷ leads) =
    add_some (candidate_of business days now d lead) (candidates_of business days now d leads)

-- The higher known value first, then the longer inactive.
abbrev pub comes_before : ReactivationCandidate → ReactivationCandidate → Bool
comes_before a b =
    ltb (or_zero b.known_value_cents) (or_zero a.known_value_cents)
    || or_zero a.known_value_cents == or_zero b.known_value_cents
      && ltb a.inactive_since b.inactive_since

abbrev pub candidates_with :
    Uuid → Instant → Database → Option BusinessSettings → Checked (List ReactivationCandidate)
candidates_with business now d none = refused DomainCode.not_found
candidates_with business now d (some settings) = passed (
    sort_by comes_before
      (candidates_of business settings.reactivation_inactivity_days now d (list business d.leads)))

unfoldable pub list_candidates : Uuid → Instant → Database → Checked (List ReactivationCandidate)
list_candidates business now d =
    candidates_with business now d (head? (list business d.business_settings))

abbrev pub candidate_in : Uuid → List ReactivationCandidate → Checked ReactivationCandidate
candidate_in lead candidates = elim (find? (λ c. c.lead_id == lead) candidates) [
  | none ↦ refused DomainCode.reactivation_not_eligible
  | some c ↦ passed c
]

unfoldable pub require_candidate : Uuid → Uuid → Instant → Database → Checked ReactivationCandidate
unfolding list_candidates
require_candidate business lead now d = elim (list_candidates business now d) [
  | refused e ↦ refused e
  | passed candidates ↦ candidate_in lead candidates
]
