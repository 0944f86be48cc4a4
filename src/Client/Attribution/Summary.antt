-- ===== src/Client/Attribution/Summary.antt =====
-- The summary of the attributed revenue.
use closer_v.Prelude.{
  ◌+◌, true, ◌≡◌, refl, inl, inr, List, [], ◌∷◌, select, sum_by, length, arith, Bool-cases, All,
}
use closer_v.Domain.Values.{Uuid, Cents}
use closer_v.Client.Kinds.{RevenueAttributionKind}
use closer_v.Client.Entities.{Payment, RevenueEvent}
use closer_v.Client.Repository.{list, find_all}
use closer_v.Client.Database.{Database, payment_entity, revenue_event_entity}
use closer_v.Client.Attribution.{
  has_some_kind, is_attributed, net_cents, add_total, totals_of_kinds, summarize,
}

-- The four totals together.
abbrev together : (RevenueAttributionKind → Cents) → Cents
together totals =
    totals RevenueAttributionKind.generated
    + totals RevenueAttributionKind.recovered
    + totals RevenueAttributionKind.protected
    + totals RevenueAttributionKind.reactivated

add_total-together :
    (payments : List Payment) (e : RevenueEvent) (totals : RevenueAttributionKind → Cents)
    → has_some_kind e.attribution_kind ≡ true
    → together (add_total payments e totals) ≡ together totals + net_cents payments e
add_total-together payments e totals h = ground (arith, h)

totals_together :
    (payments : List Payment) (events : List RevenueEvent) (totals : RevenueAttributionKind → Cents)
    → All (λ e. has_some_kind e.attribution_kind ≡ true) events
    → together (totals_of_kinds payments events totals)
      ≡ together totals + sum_by (net_cents payments) events
unfolding totals_of_kinds
totals_together payments [] totals h = omega arith
totals_together payments (e ∷ es) totals h =
    let rest = totals_together payments es (add_total payments e totals) h.1 in
    let step = add_total-together payments e totals h.0 in omega (arith, rest, step)

All-attributed :
    (events : List RevenueEvent)
    → All (λ e. has_some_kind e.attribution_kind ≡ true) (select is_attributed events)
All-attributed [] = tt
All-attributed (e ∷ es) = elim (Bool-cases (is_attributed e)) [
  | inl t ↦ rw t (ground (arith, t), All-attributed es)
  | inr t ↦ rw t (All-attributed es)
]

-- The summary loses no revenue and counts none twice: its four amounts add up to what is left, after
-- the refunds of each, of the business's verified events, and its count is their number.
pub summarize-net_cents :
    (business : Uuid) (d : Database)
    → let s = summarize business d in
      let verified = find_all business is_attributed d.revenue_events in
      (s.generated_cents + s.recovered_cents + s.protected_cents + s.reactivated_cents
        ≡ sum_by (net_cents (list business d.payments)) verified)
      × (s.verified_event_count ≡ length verified)
unfolding summarize
summarize-net_cents business d =
    let sums =
      totals_together (list business d.payments) (find_all business is_attributed d.revenue_events)
        (λ kind. 0) (All-attributed (list business d.revenue_events)) in
    (omega (arith, sums), refl)
