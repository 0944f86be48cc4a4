-- ===== src/Store/Ledger/Histories.antt =====
-- The money of a tenant over any history of bookings, payments and ledger entries.
use closer_v.Prelude.{
  true, false, ◌≡◌, refl, ◌⊎◌, inl, inr, none, some, List, [], ◌∷◌, ◌++◌, find?, any, select, arith,
  String, Option-cases, All,
}
use closer_v.Prelude.Laws.{Apart, Apart-push, All-append, find?-append_found, any-never}
use closer_v.Domain.Values.{Uuid, Instant}
use closer_v.Domain.Opportunity.{OpportunityRecord}
use closer_v.Domain.Model.{
  RevenueEntryInput, RevenueLedgerEntry, BookingCreationInput, PaymentCreationInput, PaymentRecord,
  RevenueLedgerStage,
}
use closer_v.Store.State.{State}
use closer_v.Store.Money.{
  create_booking, book_slot, apply_booking, create_payment, require_customer_and_lead, is_payment,
  has_causation, booking_key, booking_entry, attribution_of, of_opportunity, of_lead,
}
use closer_v.Store.Money.Bookings.{clash, create_booking-Apart}
use closer_v.Store.Money.Refunds.{
  RefundsCovered, create_payment-RefundsCovered, create_payment-payments,
}
use closer_v.Store.Ledger.{append_revenue_entry, add_entry, replay_entry, apply_entry}
use closer_v.Store.Ledger.Sound.{
  same_causation, same_event, is_backed, IsSound, same_causation_flip, same_event_flip,
  append_revenue_entry-IsSound,
}

is_backed-push :
    (ps : List PaymentRecord) (p : PaymentRecord) (e : RevenueLedgerEntry)
    → is_backed ps e ≡ true
    → is_backed (ps ++ p ∷ []) e ≡ true
is_backed-push ps p e h = elim (Option-cases (find? (is_payment e.tenant_id e.payment_id) ps)) [
  | inl missing ↦ ground (arith, h, missing)
  | inr (q, found) ↦ ground (
    arith,
    h,
    found,
    find?-append_found (is_payment e.tenant_id e.payment_id) ps (p ∷ []) q found,
  )
]

All-backed-push :
    (ps : List PaymentRecord) (p : PaymentRecord) (es : List RevenueLedgerEntry)
    → All (λ e. is_backed ps e ≡ true) es
    → All (λ e. is_backed (ps ++ p ∷ []) e ≡ true) es
All-backed-push ps p [] h = tt
All-backed-push ps p (e ∷ es) h = (is_backed-push ps p e h.0, All-backed-push ps p es h.1)

-- A call that moves money, with its arguments and fresh ids.
pub data MoneyCall : Type 0 where
  books : Uuid → BookingCreationInput → Uuid → Uuid → Instant → MoneyCall
  pays : Uuid → PaymentCreationInput → Uuid → Instant → MoneyCall
  records : Uuid → RevenueEntryInput → Uuid → Instant → MoneyCall

-- No bookings of a staff member clash, every payment covers its refunds, and the ledger is sound.
pub record IsConsistent (s : State) : Type 0 where
  pub apart : Apart clash s.bookings
  pub covered : RefundsCovered s.payments
  pub sound : IsSound s

module _ (uuid_text : Uuid → String) where
  unfoldable pub call : MoneyCall → State → State
  call (books tenant input booking fresh now) s =
      (create_booking uuid_text tenant input booking fresh now s).1
  call (pays tenant input fresh now) s = (create_payment tenant input fresh now s).1
  call (records tenant e fresh now) s = (append_revenue_entry tenant e fresh now s).1

  unfoldable pub run : List MoneyCall → State → State
  unfolding call
  run [] s = s
  run (c ∷ cs) s = run cs (call c s)

  booking-payments :
      (tenant : Uuid) (input : BookingCreationInput) (booking fresh : Uuid) (now : Instant)
      (s : State)
      → (create_booking uuid_text tenant input booking fresh now s).1.payments ≡ s.payments
  unfolding create_booking book_slot apply_booking require_customer_and_lead
  booking-payments tenant input booking fresh now s = ground arith

  booking_pushes :
      (tenant : Uuid) (input : BookingCreationInput) (booking fresh : Uuid) (now : Instant)
      (s : State) (p : OpportunityRecord)
      → find? (of_lead tenant input.lead_id) s.opportunities ≡ some p
      → let s' = (create_booking uuid_text tenant input booking fresh now s).1 in
        let attribution = attribution_of (select (of_opportunity tenant p.id) s.recovery_actions) in
        (s'.revenue_entries ≡ s.revenue_entries)
        ⊎ (any (has_causation tenant (booking_key uuid_text booking)) s.revenue_entries ≡ false)
          × (s'.revenue_entries
              ≡ s.revenue_entries
                ++ booking_entry uuid_text tenant input p attribution booking fresh now ∷ [])
  unfolding create_booking book_slot apply_booking require_customer_and_lead
  booking_pushes tenant input booking fresh now s p found = ground (arith, found)

  booking_without :
      (tenant : Uuid) (input : BookingCreationInput) (booking fresh : Uuid) (now : Instant)
      (s : State)
      → find? (of_lead tenant input.lead_id) s.opportunities ≡ none
      → (create_booking uuid_text tenant input booking fresh now s).1.revenue_entries
        ≡ s.revenue_entries
  unfolding create_booking book_slot apply_booking require_customer_and_lead
  booking_without tenant input booking fresh now s missing = ground (arith, missing)

  booking-entries :
      (tenant : Uuid) (input : BookingCreationInput) (booking fresh : Uuid) (now : Instant)
      (s : State)
      → let s' = (create_booking uuid_text tenant input booking fresh now s).1 in
        (s'.revenue_entries ≡ s.revenue_entries)
        ⊎ (entry : RevenueLedgerEntry) × (s'.revenue_entries ≡ s.revenue_entries ++ entry ∷ [])
          × (any (same_causation entry) s.revenue_entries ≡ false)
          × (entry.stage ≡ RevenueLedgerStage.booked)
  booking-entries tenant input booking fresh now s =
      elim (Option-cases (find? (of_lead tenant input.lead_id) s.opportunities)) [
        | inl missing ↦ inl (booking_without tenant input booking fresh now s missing)
        | inr (p, found) ↦ elim (booking_pushes tenant input booking fresh now s p found) [
          | inl same ↦ inl same
          | inr (new, pushed) ↦ inr (
            booking_entry uuid_text tenant input p
                (attribution_of (select (of_opportunity tenant p.id) s.recovery_actions)) booking
                fresh now,
            pushed,
            new,
            refl,
          )
        ]
      ]

  booking-IsSound :
      (tenant : Uuid) (input : BookingCreationInput) (booking fresh : Uuid) (now : Instant)
      (s : State)
      → IsSound s
      → IsSound (create_booking uuid_text tenant input booking fresh now s).1
  booking-IsSound tenant input booking fresh now s h =
      elim (booking-entries tenant input booking fresh now s) [
        | inl same ↦ record {
          causation_once = rw same h.causation_once;
          counted_once = rw same h.counted_once;
          backed = rw (same, booking-payments tenant input booking fresh now s) h.backed;
        }
        | inr (entry, pushed, new, stage) ↦ record {
          causation_once = rw pushed (
              Apart-push same_causation s.revenue_entries entry (λ b. same_causation_flip entry b)
                h.causation_once new);
          counted_once = rw pushed (
              Apart-push same_event s.revenue_entries entry (λ b. same_event_flip entry b)
                h.counted_once
                (any-never (same_event entry) s.revenue_entries (λ x. ground (arith, stage))));
          backed =
              rw (pushed, booking-payments tenant input booking fresh now s)
                (All-append _ s.revenue_entries _ h.backed (ground (arith, stage), tt));
        }
      ]

  payment-entries :
      (tenant : Uuid) (input : PaymentCreationInput) (fresh : Uuid) (now : Instant) (s : State)
      → let s' = (create_payment tenant input fresh now s).1 in
        (s'.revenue_entries ≡ s.revenue_entries) × (s'.bookings ≡ s.bookings)
  unfolding create_payment
  payment-entries tenant input fresh now s = ground arith

  payment-IsSound :
      (tenant : Uuid) (input : PaymentCreationInput) (fresh : Uuid) (now : Instant) (s : State)
      → IsSound s
      → IsSound (create_payment tenant input fresh now s).1
  payment-IsSound tenant input fresh now s h =
      let kept = (payment-entries tenant input fresh now s).0 in
      record {
        causation_once = rw kept h.causation_once;
        counted_once = rw kept h.counted_once;
        backed = elim (create_payment-payments tenant input fresh now s) [
          | inl same ↦ rw (kept, same) h.backed
          | inr pushed ↦ rw (kept, pushed) (All-backed-push s.payments _ s.revenue_entries h.backed)
        ];
      }

  entry-bookings :
      (tenant : Uuid) (e : RevenueEntryInput) (fresh : Uuid) (now : Instant) (s : State)
      → let s' = (append_revenue_entry tenant e fresh now s).1 in
        (s'.bookings ≡ s.bookings) × (s'.payments ≡ s.payments)
  unfolding append_revenue_entry add_entry replay_entry apply_entry require_customer_and_lead
  entry-bookings tenant e fresh now s = ground arith

  call-IsConsistent : (c : MoneyCall) (s : State) → IsConsistent s → IsConsistent (call c s)
  unfolding call
  call-IsConsistent (books tenant input booking fresh now) s h = record {
    apart = create_booking-Apart uuid_text tenant input booking fresh now s h.apart;
    covered = rw (booking-payments tenant input booking fresh now s) h.covered;
    sound = booking-IsSound tenant input booking fresh now s h.sound;
  }
  call-IsConsistent (pays tenant input fresh now) s h = record {
    apart = rw (payment-entries tenant input fresh now s).1 h.apart;
    covered = create_payment-RefundsCovered tenant input fresh now s h.covered;
    sound = payment-IsSound tenant input fresh now s h.sound;
  }
  call-IsConsistent (records tenant e fresh now) s h = record {
    apart = rw (entry-bookings tenant e fresh now s).0 h.apart;
    covered = rw (entry-bookings tenant e fresh now s).1 h.covered;
    sound = append_revenue_entry-IsSound tenant e fresh now s h.sound;
  }

  -- After any history of bookings, payments, refunds and ledger entries, accepted or refused, a
  -- store that was consistent is consistent: no two bookings of a staff member overlap in the order of
  -- the texts, where each starts before the other ends; every payment covers its refunds; no two entries of a
  -- tenant have one causation key, and no payment has two entries as collected or two as refunded;
  -- and behind every entry that is collected, refunded or recovered stands a payment. One payment may
  -- stand behind several recovered entries.
  pub run-IsConsistent :
      (cs : List MoneyCall) (s : State) → IsConsistent s → IsConsistent (run cs s)
  unfolding run
  run-IsConsistent [] s h = h
  run-IsConsistent (c ∷ cs) s h = run-IsConsistent cs (call c s) (call-IsConsistent c s h)
