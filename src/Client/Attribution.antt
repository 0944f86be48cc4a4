-- ===== src/Client/Attribution.antt =====
-- `RevenueAttributionService` of src/application/revenue/RevenueAttributionService.ts.
pub mod Evidence
pub mod Summary
use closer_v.Prelude.{
  ℕ, ◌+◌, ◌-◌, Bool, true, false, not, ◌&&◌, ◌||◌, ◌==◌, ltb, leb, Option, none, some, List, [],
  ◌∷◌, find?, any, every, select, sum_by, length, head?, if◌then◌else◌,
}
use closer_v.Domain.Values.{Uuid, Key, Instant, Cents}
use closer_v.Store.Lookup.{same_id}
use closer_v.Client.Kinds.{
  PaymentKind, RevenueAttributionKind, RevenueAttributionStatus, RevenueStage,
}
use closer_v.Client.Entities.{
  TenantEntity, Activity, Conversation, Lead, Payment, RevenueEvent, TeamMember,
}
use closer_v.Client.Rules.{DomainCode, Checked, passed, refused, check, ◌>>=◌, is_refund}
use closer_v.Client.Repository.{get, list, find_all}
use closer_v.Client.Database.{
  Database, Work, done, fail, save_in, in_revenue_events, activity_entity, conversation_entity,
  lead_entity, payment_entity, revenue_event_entity, team_member_entity,
}
use closer_v.Client.Text.{is_blank, has_text}

pub record VerifyRevenueAttributionInput : Type 0 where
  pub business_id : Uuid
  pub revenue_event_id : Uuid
  pub kind : RevenueAttributionKind
  pub contributing_activity_ids : List Uuid
  pub operation_key : Key
  pub verified_by_team_member_id : Option Uuid

abbrev pub found {ℓ} : {A : Type ℓ} → Option A → DomainCode → Checked A
found none e = refused e
found (some a) e = passed a

abbrev pub is_collected_stage : RevenueStage → Bool
is_collected_stage RevenueStage.collected = true
is_collected_stage _ = false

abbrev pub is_verified : RevenueAttributionStatus → Bool
is_verified RevenueAttributionStatus.verified = true
is_verified _ = false

abbrev pub same_kind : RevenueAttributionKind → RevenueAttributionKind → Bool
same_kind RevenueAttributionKind.generated RevenueAttributionKind.generated = true
same_kind RevenueAttributionKind.recovered RevenueAttributionKind.recovered = true
same_kind RevenueAttributionKind.protected RevenueAttributionKind.protected = true
same_kind RevenueAttributionKind.reactivated RevenueAttributionKind.reactivated = true
same_kind _ _ = false

abbrev pub has_kind : RevenueAttributionKind → Option RevenueAttributionKind → Bool
has_kind kind none = false
has_kind kind (some k) = same_kind k kind

abbrev pub includes : List Uuid → Uuid → Bool
includes ids id = any (λ i. i == id) ids

-- `[...new Set(ids)]`, from the ids that came before.
unfoldable pub distinct_from : List Uuid → List Uuid → List Uuid
distinct_from seen [] = []
distinct_from seen (id ∷ ids) =
    let rest = distinct_from (id ∷ seen) ids in if includes seen id then rest else id ∷ rest

abbrev pub distinct : List Uuid → List Uuid
distinct ids = distinct_from [] ids

abbrev pub same_values : List Uuid → List Uuid → Bool
same_values first second = length first == length second && every (includes second) first

abbrev pub has_ids : List Uuid → Bool
has_ids [] = false
has_ids (id ∷ ids) = true

-- The operation key belongs to no other event.
abbrev pub is_free_key : Option RevenueEvent → RevenueEvent → Bool
is_free_key none event = true
is_free_key (some other) event = other.id == event.id

abbrev pub is_repeat : VerifyRevenueAttributionInput → List Uuid → RevenueEvent → Bool
is_repeat input ids event =
    has_text input.operation_key event.attribution_operation_key
    && has_kind input.kind event.attribution_kind
    && same_values event.contributing_activity_ids ids
    && same_id event.attributed_by_team_member_id input.verified_by_team_member_id

-- The context of an event is its opportunity's.
abbrev pub fits_context : RevenueEvent → Option Lead → Option Conversation → Bool
fits_context event (some lead) (some conversation) =
    lead.contact_id == event.contact_id
    && lead.conversation_id == conversation.id
    && conversation.contact_id == event.contact_id
fits_context event _ _ = false

abbrev pub is_evidence : RevenueEvent → Option Activity → Bool
is_evidence event none = false
is_evidence event (some activity) =
    same_id activity.contact_id (some event.contact_id)
    && same_id activity.conversation_id (some event.conversation_id)
    && leb activity.occurred_at event.occurred_at

abbrev pub is_known_verifier : Uuid → Option Uuid → Database → Bool
is_known_verifier business none d = true
is_known_verifier business (some id) d = elim (get business id d.team_members) [
  | none ↦ false
  | some member ↦ true
]

abbrev pub attributed :
    VerifyRevenueAttributionInput → List Uuid → Instant → RevenueEvent → RevenueEvent
attributed input ids now event = record event {
  base = record (event.base) { updated_at = now };
  attribution_status = RevenueAttributionStatus.verified;
  attribution_kind = some input.kind;
  contributing_activity_ids = ids;
  attribution_operation_key = some input.operation_key;
  attributed_at = some now;
  attributed_by_team_member_id = input.verified_by_team_member_id;
}

-- The event and the activities of a first verification, or what is wrong with them.
unfoldable pub check_evidence :
    VerifyRevenueAttributionInput → List Uuid → RevenueEvent → Database → Checked (Unit {0})
check_evidence input ids event d =
    check
      (fits_context event (get input.business_id event.lead_id d.leads)
        (get input.business_id event.conversation_id d.conversations))
      DomainCode.reference_mismatch
    >>= λ _.
        check (every (λ id. is_evidence event (get input.business_id id d.activities)) ids)
          DomainCode.attribution_evidence_mismatch
        >>= λ _.
            check (is_known_verifier input.business_id input.verified_by_team_member_id d)
              DomainCode.team_member_not_found

-- The event to verify, past the checks that every call makes.
unfoldable pub check_input : VerifyRevenueAttributionInput → Database → Checked RevenueEvent
check_input input d =
    check (not (is_blank input.operation_key)) DomainCode.operation_key_required >>= λ _.
    found (get input.business_id input.revenue_event_id d.revenue_events)
      DomainCode.revenue_event_not_found
    >>= λ event.
        check (is_collected_stage event.stage) DomainCode.attribution_requires_collection >>= λ _.
        check (has_ids (distinct input.contributing_activity_ids))
          DomainCode.attribution_evidence_required
        >>= λ _.
            check
              (is_free_key
                (head? (
                  find_all input.business_id
                    (λ e. has_text input.operation_key e.attribution_operation_key)
                    d.revenue_events))
                event)
              DomainCode.idempotency_conflict
            >>= λ _. passed event

abbrev pub save_attribution :
    VerifyRevenueAttributionInput → Instant → RevenueEvent → Checked (Unit {0}) → Work RevenueEvent
save_attribution input now event (refused e) = fail e
save_attribution input now event (passed u) =
    save_in in_revenue_events input.business_id
      (attributed input (distinct input.contributing_activity_ids) now event)

-- What is done with the event: a repeated call returns it, a first verification saves it.
unfoldable pub verify_event :
    VerifyRevenueAttributionInput → Instant → RevenueEvent → Work RevenueEvent
verify_event input now event d =
    let ids = distinct input.contributing_activity_ids in
    if is_verified event.attribution_status
    then (if is_repeat input ids event
        then done event d
        else fail DomainCode.attribution_already_verified d)
    else save_attribution input now event (check_evidence input ids event d) d

abbrev pub verify_checked :
    VerifyRevenueAttributionInput → Instant → Checked RevenueEvent → Work RevenueEvent
verify_checked input now (refused e) = fail e
verify_checked input now (passed event) = verify_event input now event

unfoldable pub verify : VerifyRevenueAttributionInput → Instant → Work RevenueEvent
verify input now d = verify_checked input now (check_input input d) d

pub data SummaryStatus : Type 0 where
  available not_available : SummaryStatus

pub record RevenueAttributionSummary : Type 0 where
  pub status : SummaryStatus
  pub generated_cents : Cents
  pub recovered_cents : Cents
  pub protected_cents : Cents
  pub reactivated_cents : Cents
  pub verified_event_count : ℕ

abbrev pub has_some_kind : Option RevenueAttributionKind → Bool
has_some_kind none = false
has_some_kind (some k) = true

abbrev pub is_attributed : RevenueEvent → Bool
is_attributed e =
    is_collected_stage e.stage
    && is_verified e.attribution_status
    && has_some_kind e.attribution_kind

abbrev pub is_refund_of : RevenueEvent → Payment → Bool
is_refund_of e p = is_refund p.kind && same_id p.original_payment_id (some e.causation_id)

-- `Math.max(0, event.amountCents - refundedCents)`
abbrev pub net_cents : List Payment → RevenueEvent → Cents
net_cents payments e =
    e.amount_cents - sum_by (λ p. p.amount_cents) (select (is_refund_of e) payments)

-- `totals.set(kind, (totals.get(kind) ?? 0) + net)`, on the map as a function that is 0 at first.
abbrev pub add_total :
    List Payment → RevenueEvent → (RevenueAttributionKind → Cents) → RevenueAttributionKind → Cents
add_total payments e totals kind =
    if has_kind kind e.attribution_kind then totals kind + net_cents payments e else totals kind

-- The loop over the events, from the totals so far.
unfoldable pub totals_of_kinds :
    List Payment
    → List RevenueEvent
    → (RevenueAttributionKind → Cents)
    → RevenueAttributionKind
    → Cents
totals_of_kinds payments [] totals = totals
totals_of_kinds payments (e ∷ es) totals = totals_of_kinds payments es (add_total payments e totals)

abbrev pub status_of : List RevenueEvent → SummaryStatus
status_of [] = not_available
status_of (e ∷ es) = available

unfoldable pub summarize : Uuid → Database → RevenueAttributionSummary
unfolding totals_of_kinds
summarize business d =
    let verified = find_all business is_attributed d.revenue_events in
    let totals = totals_of_kinds (list business d.payments) verified (λ kind. 0) in
    record {
      status = status_of verified;
      generated_cents = totals RevenueAttributionKind.generated;
      recovered_cents = totals RevenueAttributionKind.recovered;
      protected_cents = totals RevenueAttributionKind.protected;
      reactivated_cents = totals RevenueAttributionKind.reactivated;
      verified_event_count = length verified;
    }
