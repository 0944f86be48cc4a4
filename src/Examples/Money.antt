-- ===== src/Examples/Money.antt =====
-- Bookings, payments and the ledger at concrete inputs.
use closer_v.Prelude.{◌≡◌, refl, ◌-◌, ◌==◌, List, [], ◌∷◌, select, arith, String}
use closer_v.Domain.Values.{Uuid}
use closer_v.Store.State.{ok}
use closer_v.Store.Money.{
  refunded_cents, create_booking, book_slot, apply_booking, require_customer_and_lead,
}
use closer_v.Store.Money.Bookings.{create_booking_again}
use closer_v.Store.Money.Refunds.{RefundsCovered}
use closer_v.Store.Ledger.{get_revenue_summary, is_collected, is_refunded, is_recovered}
use closer_v.Store.Ledger.Sound.{IsSound}
use closer_v.Store.Ledger.Histories.{
  MoneyCall, books, pays, records, IsConsistent, run, run-IsConsistent,
}
use closer_v.Store.Ledger.Totals.{
  staged, is_potential, is_pipeline, is_booked, get_revenue_summary-staged,
}
use closer_v.Examples.Data.{
  store, paid_store, ledger_store, deposit, booking_input, refund_input, collected_input,
}

abbrev text : Uuid → String
text _ = "an id"

deposit_covered : RefundsCovered (deposit ∷ [])
unfolding refunded_cents
deposit_covered tenant id = ground arith

paid_store-IsSound : IsSound paid_store
paid_store-IsSound = record { causation_once = tt; counted_once = tt; backed = tt }

abbrev calls : List MoneyCall
calls =
    books 1 booking_input 8 30 100
    ∷ pays 1 refund_input 31 110
    ∷ records 1 collected_input 32 120
    ∷ []

run-IsConsistent_example : IsConsistent (run text calls paid_store)
run-IsConsistent_example =
    run-IsConsistent text calls paid_store
      (record { apart = tt; covered = deposit_covered; sound = paid_store-IsSound })

create_booking_again_example :
    let s' = (create_booking text 1 booking_input 8 30 100 store).1 in
    create_booking text 1 booking_input 9 31 200 s' ≡ (ok 8, s')
unfolding create_booking book_slot apply_booking require_customer_and_lead
create_booking_again_example =
    create_booking_again text 1 booking_input 8 30 100 9 31 200 store refl

get_revenue_summary-staged_example :
    let es = select (λ e. e.tenant_id == 1) ledger_store.revenue_entries in
    let t = get_revenue_summary 1 ledger_store in
    (t.potential_cents ≡ staged is_potential es)
    × (t.pipeline_cents ≡ staged is_pipeline es)
    × (t.booked_cents ≡ staged is_booked es)
    × (t.collected_cents ≡ staged is_collected es - staged is_refunded es)
    × (t.refunded_cents ≡ staged is_refunded es)
    × (t.recovered_cents ≡ staged is_recovered es)
get_revenue_summary-staged_example = get_revenue_summary-staged 1 ledger_store
