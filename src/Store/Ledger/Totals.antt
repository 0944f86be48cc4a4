-- ===== src/Store/Ledger/Totals.antt =====
-- What the revenue summary adds up.
use closer_v.Prelude.{◌+◌, ◌-◌, Bool, true, false, ◌==◌, ◌≡◌, List, [], ◌∷◌, select, sum_by, arith}
use closer_v.Domain.Values.{Uuid, Cents}
use closer_v.Domain.Model.{RevenueLedgerEntry, RevenueLedgerStage, RevenueSummary}
use closer_v.Store.State.{State}
use closer_v.Store.Ledger.{
  is_collected, is_refunded, is_recovered, add_amount, add_amounts, no_totals, get_revenue_summary,
}

abbrev pub is_potential : RevenueLedgerStage → Bool
is_potential RevenueLedgerStage.potential = true
is_potential _ = false

abbrev pub is_pipeline : RevenueLedgerStage → Bool
is_pipeline RevenueLedgerStage.pipeline = true
is_pipeline _ = false

abbrev pub is_booked : RevenueLedgerStage → Bool
is_booked RevenueLedgerStage.booked = true
is_booked _ = false

-- The sum of the amounts of one stage.
abbrev pub staged : (RevenueLedgerStage → Bool) → List RevenueLedgerEntry → Cents
staged test es = sum_by (λ e. e.amount_cents) (select (λ e. test e.stage) es)

abbrev AddsUp : List RevenueLedgerEntry → RevenueSummary → RevenueSummary → Type 0
AddsUp es t t' =
    (t'.potential_cents ≡ t.potential_cents + staged is_potential es)
    × (t'.pipeline_cents ≡ t.pipeline_cents + staged is_pipeline es)
    × (t'.booked_cents ≡ t.booked_cents + staged is_booked es)
    × (t'.collected_cents ≡ t.collected_cents + staged is_collected es)
    × (t'.refunded_cents ≡ t.refunded_cents + staged is_refunded es)
    × (t'.recovered_cents ≡ t.recovered_cents + staged is_recovered es)

add_amounts-AddsUp :
    (es : List RevenueLedgerEntry) (t : RevenueSummary) → AddsUp es t (add_amounts es t)
unfolding add_amounts
add_amounts-AddsUp [] t = ground arith
add_amounts-AddsUp (e ∷ es) t =
    ground (arith, add_amounts-AddsUp es (add_amount e.stage e.amount_cents t))

-- The summary that the loop computes is, stage by stage, the sum of the amounts of the tenant's own
-- entries; what was refunded is taken from what was collected, and never below zero.
pub get_revenue_summary-staged :
    (tenant : Uuid) (s : State)
    → let es = select (λ e. e.tenant_id == tenant) s.revenue_entries in
      let t = get_revenue_summary tenant s in
      (t.potential_cents ≡ staged is_potential es)
      × (t.pipeline_cents ≡ staged is_pipeline es)
      × (t.booked_cents ≡ staged is_booked es)
      × (t.collected_cents ≡ staged is_collected es - staged is_refunded es)
      × (t.refunded_cents ≡ staged is_refunded es)
      × (t.recovered_cents ≡ staged is_recovered es)
unfolding get_revenue_summary
get_revenue_summary-staged tenant s =
    ground
      (arith, add_amounts-AddsUp (select (λ e. e.tenant_id == tenant) s.revenue_entries) no_totals)
