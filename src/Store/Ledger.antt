-- ===== src/Store/Ledger.antt =====
-- The revenue ledger (`appendRevenueEntry`, `getRevenueSummary`, `inMemoryRevenueEventType`).
pub mod Sound
pub mod Histories
pub mod Totals
use closer_v.Prelude.{
  ℕ, ◌+◌, ◌-◌, Bool, true, false, not, ◌&&◌, ◌||◌, ◌==◌, ltb, Option, none, some, List, [], ◌∷◌,
  ◌++◌, find?, select, any, sum_by, update_first, if◌then◌else◌, String,
}
use closer_v.Domain.Values.{Uuid, Key, Instant, Cents, RevenueAttributionType}
use closer_v.Domain.Opportunity.{OpportunityRecord}
use closer_v.Domain.Model.{
  PaymentRecord, PaymentKind, RevenueLedgerEntry, RevenueEntryInput, RevenueLedgerStage,
  RevenueEventType, RevenueSummary,
}
use closer_v.Store.State.{
  State, Action, api_error, invalid_opportunity_context, revenue_causation_conflict,
  duplicate_financial_event, unverified_revenue, unverified_refund, unverified_collection, pure,
  throw, gets, or_throw, ◌>>=◌, ◌>>◌, throw_if, modify,
}
use closer_v.Store.Lookup.{same_text, same_id, is_some, or_else, is_opportunity}
use closer_v.Store.Money.{is_id, is_refund, is_payment, has_causation, require_customer_and_lead}

abbrev pub stage_number : RevenueLedgerStage → ℕ
stage_number RevenueLedgerStage.potential = 0
stage_number RevenueLedgerStage.pipeline = 1
stage_number RevenueLedgerStage.booked = 2
stage_number RevenueLedgerStage.collected = 3
stage_number RevenueLedgerStage.refunded = 4
stage_number RevenueLedgerStage.recovered = 5

-- `a === b`
abbrev pub same_stage : RevenueLedgerStage → RevenueLedgerStage → Bool
same_stage a b = stage_number a == stage_number b

abbrev pub is_collected : RevenueLedgerStage → Bool
is_collected s = same_stage s RevenueLedgerStage.collected

abbrev pub is_refunded : RevenueLedgerStage → Bool
is_refunded s = same_stage s RevenueLedgerStage.refunded

abbrev pub is_recovered : RevenueLedgerStage → Bool
is_recovered s = same_stage s RevenueLedgerStage.recovered

abbrev pub in_memory_revenue_event_type : RevenueLedgerStage → RevenueEventType
in_memory_revenue_event_type RevenueLedgerStage.potential = RevenueEventType.estimate_created
in_memory_revenue_event_type RevenueLedgerStage.pipeline =
    RevenueEventType.potential_revenue_at_risk
in_memory_revenue_event_type RevenueLedgerStage.booked = RevenueEventType.booking_created
in_memory_revenue_event_type RevenueLedgerStage.collected = RevenueEventType.payment_received
in_memory_revenue_event_type RevenueLedgerStage.refunded = RevenueEventType.refund
in_memory_revenue_event_type RevenueLedgerStage.recovered = RevenueEventType.booking_recovered

-- `a === b` where either may be null; the conversation of an entry is never null.
abbrev pub both_ids : Option Uuid → Option Uuid → Bool
both_ids none b = false
both_ids (some a) b = is_id a b

-- The opportunity that an entry belongs to.
abbrev pub is_linked : Uuid → RevenueEntryInput → OpportunityRecord → Bool
is_linked tenant e p =
    p.tenant_id == tenant
    && is_id e.lead_id p.lead_id
    && p.customer_id == e.customer_id
    && both_ids e.conversation_id p.conversation_id
    && (not (is_some e.opportunity_id) || is_id p.id e.opportunity_id)

abbrev pub same_facts : RevenueLedgerEntry → RevenueEntryInput → Bool
same_facts old e =
    same_stage old.stage e.stage
    && old.amount_cents == e.amount_cents
    && same_id old.payment_id e.payment_id

-- The financial event of the same payment, which may stand in the ledger only once.
abbrev pub is_payment_stage : Uuid → RevenueEntryInput → RevenueLedgerEntry → Bool
is_payment_stage tenant e old =
    old.tenant_id == tenant
    && same_id old.payment_id e.payment_id
    && same_stage old.stage e.stage
    && (is_collected e.stage || is_refunded e.stage)

-- The checks of collected, refunded and recovered money against the payment that is named.
unfoldable pub check_payment : RevenueEntryInput → Option PaymentRecord → Action (Unit {0})
check_payment e none = throw (api_error 422 unverified_revenue)
check_payment e (some p) = do
  throw_if (not (p.amount_cents == e.amount_cents)) (api_error 422 unverified_revenue)
  throw_if (is_refunded e.stage && not (is_refund p.kind)) (api_error 422 unverified_refund)
  throw_if ((is_collected e.stage || is_recovered e.stage) && is_refund p.kind)
      (api_error 422 unverified_collection)

abbrev pub attribution_type_of : Option OpportunityRecord → Option RevenueAttributionType
attribution_type_of none = none
attribution_type_of (some p) = p.attribution_type

abbrev pub attribution_reason_of : Option OpportunityRecord → Option String
attribution_reason_of none = none
attribution_reason_of (some p) = p.attribution_reason

abbrev pub opportunity_id_of : Option OpportunityRecord → Option Uuid
opportunity_id_of none = none
opportunity_id_of (some p) = some p.id

abbrev pub new_entry :
    Uuid → RevenueEntryInput → Option OpportunityRecord → Uuid → Instant → RevenueLedgerEntry
new_entry tenant e opportunity fresh now = record {
  input = record e {
    opportunity_id = opportunity_id_of opportunity;
    event_type = or_else e.event_type (some (in_memory_revenue_event_type e.stage));
    attribution_type = or_else e.attribution_type (attribution_type_of opportunity);
    attribution_reason = or_else e.attribution_reason (attribution_reason_of opportunity);
  };
  id = fresh;
  tenant_id = tenant;
  occurred_at = now;
}

abbrev pub links : Uuid → Uuid → RevenueLedgerEntry → Bool
links tenant opportunity e = e.tenant_id == tenant && is_id opportunity e.opportunity_id

-- The amounts of one stage among the entries that are linked to an opportunity.
unfoldable pub stage_cents : Uuid → Uuid → RevenueLedgerStage → List RevenueLedgerEntry → Cents
stage_cents tenant opportunity stage es =
    sum_by (λ e. e.amount_cents)
      (select (λ e. same_stage e.stage stage) (select (links tenant opportunity) es))

-- `Math.max(0, collected - refunded)`, which is truncated subtraction.
abbrev pub net_cents : Uuid → Uuid → List RevenueLedgerEntry → Cents
net_cents tenant opportunity es =
    stage_cents tenant opportunity RevenueLedgerStage.collected es
    - stage_cents tenant opportunity RevenueLedgerStage.refunded es

-- `if (record.attributionReason)`: an empty text is not written.
abbrev pub truthy : Option String → Option String
truthy none = none
truthy (some String.[]) = none
truthy (some t) = some t

abbrev pub attribute : Cents → RevenueLedgerEntry → Instant → OpportunityRecord → OpportunityRecord
attribute cents e now p = record p {
  revenue_attributed_cents = cents;
  attribution_type = or_else e.attribution_type p.attribution_type;
  attribution_reason = or_else (truthy e.attribution_reason) p.attribution_reason;
  updated_at = now;
}

-- Pushing the entry, and the update of the opportunity that it is linked to.
unfoldable pub apply_entry :
    Uuid
    → RevenueEntryInput
    → Option OpportunityRecord
    → RevenueLedgerEntry
    → Instant
    → State
    → State
apply_entry tenant e none entry now s = record s {
  revenue_entries = s.revenue_entries ++ entry ∷ [];
}
apply_entry tenant e (some p) entry now s =
    let entries = s.revenue_entries ++ entry ∷ [] in
    record s {
      revenue_entries = entries;
      opportunities =
          update_first (is_linked tenant e) (attribute (net_cents tenant p.id entries) entry now)
            s.opportunities;
    }

abbrev pub is_verified_stage : RevenueLedgerStage → Bool
is_verified_stage stage = is_collected stage || is_refunded stage || is_recovered stage

-- The rest of the method, once the causation key is known to be new.
unfoldable pub add_entry :
    Uuid → RevenueEntryInput → Option OpportunityRecord → Uuid → Instant → Action RevenueLedgerEntry
unfolding check_payment
add_entry tenant e opportunity fresh now = do
  counted ← gets (λ s. any (is_payment_stage tenant e) s.revenue_entries)
  throw_if counted (api_error 409 duplicate_financial_event)
  payment ← gets (λ s. find? (is_payment tenant e.payment_id) s.payments)
  elim (is_verified_stage e.stage) [ true ↦ check_payment e payment | false ↦ pure tt ]
  let entry = new_entry tenant e opportunity fresh now
  modify (apply_entry tenant e opportunity entry now)
  pure entry

-- `existing` with the same facts is returned, with others it is a conflict.
unfoldable pub replay_entry : RevenueEntryInput → RevenueLedgerEntry → Action RevenueLedgerEntry
replay_entry e existing = do
  throw_if (not (same_facts existing e)) (api_error 409 revenue_causation_conflict)
  pure existing

unfoldable pub append_revenue_entry :
    Uuid → RevenueEntryInput → Uuid → Instant → Action RevenueLedgerEntry
append_revenue_entry tenant e fresh now = do
  require_customer_and_lead tenant e.customer_id e.lead_id
  opportunity ← gets (λ s. find? (is_linked tenant e) s.opportunities)
  throw_if (is_some e.opportunity_id && not (is_some opportunity))
      (api_error 422 invalid_opportunity_context)
  existing ← gets (λ s. find? (has_causation tenant e.causation_key) s.revenue_entries)
  elim existing [ some old ↦ replay_entry e old | none ↦ add_entry tenant e opportunity fresh now ]

-- The body of the loop in `getRevenueSummary`: an amount goes to the total of its stage.
abbrev pub add_amount : RevenueLedgerStage → Cents → RevenueSummary → RevenueSummary
add_amount RevenueLedgerStage.potential n t = record t { potential_cents = t.potential_cents + n }
add_amount RevenueLedgerStage.pipeline n t = record t { pipeline_cents = t.pipeline_cents + n }
add_amount RevenueLedgerStage.booked n t = record t { booked_cents = t.booked_cents + n }
add_amount RevenueLedgerStage.collected n t = record t { collected_cents = t.collected_cents + n }
add_amount RevenueLedgerStage.refunded n t = record t { refunded_cents = t.refunded_cents + n }
add_amount RevenueLedgerStage.recovered n t = record t { recovered_cents = t.recovered_cents + n }

unfoldable pub add_amounts : List RevenueLedgerEntry → RevenueSummary → RevenueSummary
add_amounts [] t = t
add_amounts (e ∷ es) t = add_amounts es (add_amount e.stage e.amount_cents t)

abbrev pub no_totals : RevenueSummary
no_totals = record {
  potential_cents = 0;
  pipeline_cents = 0;
  booked_cents = 0;
  collected_cents = 0;
  refunded_cents = 0;
  recovered_cents = 0;
}

unfoldable pub get_revenue_summary : Uuid → State → RevenueSummary
unfolding add_amounts
get_revenue_summary tenant s =
    let t = add_amounts (select (λ e. e.tenant_id == tenant) s.revenue_entries) no_totals in
    record t { collected_cents = t.collected_cents - t.refunded_cents }
