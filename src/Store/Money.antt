-- ===== src/Store/Money.antt =====
-- Bookings and payments (`createBooking`, `createPayment`, `requireCustomerAndLead`).
pub mod Bookings
pub mod Refunds
use Prim.Native.String.{◌++◌ as append_text}
use closer_v.Prelude.{
  ℕ, ◌+◌, ◌-◌, Bool, true, false, not, ◌&&◌, ◌||◌, ◌==◌, ltb, leb, Option, none, some, List, [],
  ◌∷◌, ◌++◌, find?, select, any, sort_by, sum_by, update_first, if◌then◌else◌, String,
}
use closer_v.Domain.Values.{
  Uuid, Key, Instant, text_before, Cents, OpportunityStatus, RecoveryState, RecoveryActionStatus,
  RevenueAttributionType,
}
use closer_v.Domain.Opportunity.{OpportunityRecord, RecoveryActionRecord}
use closer_v.Domain.Model.{
  CustomerRecord, LeadRecord, ConversationRecord, WorkflowType, BookingRecord, BookingStatus,
  BookingCreationInput, PaymentRecord, PaymentKind, PaymentReferenceType, PaymentCreationInput,
  PaymentCreationResult, RevenueLedgerEntry, RevenueLedgerStage, RevenueEventType,
}
use closer_v.Store.State.{
  State, Action, api_error, invalid_journey_context, invalid_booking_workflow, booking_conflict,
  invalid_opportunity_context, invalid_payment_context, invalid_payment_reference,
  invalid_refund_reference, refund_exceeds_payment, pure, throw, gets, or_throw, ◌>>=◌, ◌>>◌,
  throw_if, modify,
}
use closer_v.Store.Lookup.{same_text, is_customer, is_lead, is_conversation, is_opportunity}

-- `a === b` where the first is an id and the second may be null.
abbrev pub is_id : Uuid → Option Uuid → Bool
is_id a none = false
is_id a (some b) = a == b

-- `!customer || !lead || lead.customerId !== customerId`, turned round.
abbrev pub belong_together : Uuid → Uuid → Uuid → State → Bool
belong_together tenant customer lead s =
    any (is_customer tenant customer) s.customers && (elim (find? (is_lead tenant lead) s.leads) [
      | none ↦ false
      | some l ↦ l.customer_id == customer
    ])

unfoldable pub require_customer_and_lead : Uuid → Uuid → Uuid → Action (Unit {0})
require_customer_and_lead tenant customer lead = do
  together ← gets (belong_together tenant customer lead)
  throw_if (not together) (api_error 422 invalid_journey_context)

abbrev pub takes_appointments : Option LeadRecord → Bool
takes_appointments none = false
takes_appointments (some l) = elim l.workflow_type [
  | WorkflowType.appointment_service ↦ true
  | WorkflowType.quote_job ↦ false
]

abbrev pub is_booking_key : Uuid → Key → BookingRecord → Bool
is_booking_key tenant key b = b.tenant_id == tenant && same_text b.idempotency_key key

-- The booking of the same staff member that overlaps the requested slot.
abbrev pub overlaps : Uuid → BookingCreationInput → BookingRecord → Bool
overlaps tenant input b =
    b.tenant_id == tenant
    && b.staff_id == input.staff_id
    && text_before b.start_at input.end_at
    && text_before input.start_at b.end_at

abbrev pub of_lead : Uuid → Uuid → OpportunityRecord → Bool
of_lead tenant lead p = p.tenant_id == tenant && is_id lead p.lead_id

abbrev pub new_booking : Uuid → BookingCreationInput → Uuid → BookingRecord
new_booking tenant input fresh = record {
  id = fresh;
  tenant_id = tenant;
  customer_id = input.customer_id;
  lead_id = input.lead_id;
  total_cents = input.total_cents;
  idempotency_key = input.idempotency_key;
  staff_id = input.staff_id;
  start_at = input.start_at;
  end_at = input.end_at;
  status = BookingStatus.tentative;
}

-- `['AT_RISK', 'RECOVERY_ACTIVE', 'WAITING_FOR_CUSTOMER'].includes(recoveryState)`
abbrev pub was_at_risk : RecoveryState → Bool
was_at_risk RecoveryState.at_risk = true
was_at_risk RecoveryState.recovery_active = true
was_at_risk RecoveryState.waiting_for_customer = true
was_at_risk _ = false

abbrev pub of_opportunity : Uuid → Uuid → RecoveryActionRecord → Bool
of_opportunity tenant opportunity a = a.tenant_id == tenant && a.opportunity_id == opportunity

-- `['COMPLETED', 'WAITING_CUSTOMER'].includes(status)`
abbrev pub has_run : RecoveryActionStatus → Bool
has_run RecoveryActionStatus.completed = true
has_run RecoveryActionStatus.waiting_customer = true
has_run _ = false

-- `!['SUPPRESSED', 'CANCELLED', 'FAILED'].includes(status)`
abbrev pub has_helped : RecoveryActionStatus → Bool
has_helped RecoveryActionStatus.suppressed = false
has_helped RecoveryActionStatus.cancelled = false
has_helped RecoveryActionStatus.failed = false
has_helped _ = true

-- The evidence for the attribution of a booking. The source sorts it first, which `some` ignores.
unfoldable pub attribution_of : List RecoveryActionRecord → RevenueAttributionType
attribution_of actions =
    if any (λ a. has_run a.status) actions
    then RevenueAttributionType.recovered
    else if any (λ a. has_helped a.status) actions
    then RevenueAttributionType.assisted
    else RevenueAttributionType.organic

abbrev pub attribution_reason_of : RevenueAttributionType → String
attribution_reason_of RevenueAttributionType.recovered =
    "VALIDATED_BOOKING_AFTER_COMPLETED_RECOVERY_ACTION"
attribution_reason_of RevenueAttributionType.assisted =
    "VALIDATED_BOOKING_AFTER_CLOSER_RECOVERY_PREPARATION"
attribution_reason_of _ = "VALIDATED_BOOKING_WITHOUT_CLOSER_RECOVERY_EVIDENCE"

abbrev pub booking_event_type : RevenueAttributionType → RevenueEventType
booking_event_type RevenueAttributionType.recovered = RevenueEventType.booking_recovered
booking_event_type _ = RevenueEventType.booking_created

abbrev pub book : Uuid → RevenueAttributionType → Instant → OpportunityRecord → OpportunityRecord
book booking attribution now p = record p {
  booking_id = some booking;
  status = OpportunityStatus.booked;
  recovery_state =
      if was_at_risk p.recovery_state then RecoveryState.recovered else RecoveryState.not_at_risk;
  next_action_at = none;
  attribution_type = some attribution;
  attribution_reason = some (attribution_reason_of attribution);
  updated_at = now;
}

abbrev pub has_causation : Uuid → Key → RevenueLedgerEntry → Bool
has_causation tenant key e = e.tenant_id == tenant && same_text e.causation_key key

-- An id is a number here; the two fresh ids of a booking are the booking's and its ledger entry's,
-- and `uuid_text` is the text of an id, from which the key `booking:<id>` is made.
module _ (uuid_text : Uuid → String) where
  abbrev pub booking_key : Uuid → Key
  booking_key booking = append_text "booking:" (uuid_text booking)

  abbrev pub booking_entry :
      Uuid
      → BookingCreationInput
      → OpportunityRecord
      → RevenueAttributionType
      → Uuid
      → Uuid
      → Instant
      → RevenueLedgerEntry
  booking_entry tenant input p attribution booking fresh now = record {
    input = record {
      customer_id = input.customer_id;
      lead_id = input.lead_id;
      conversation_id = p.conversation_id;
      payment_id = none;
      stage = RevenueLedgerStage.booked;
      amount_cents = input.total_cents;
      causation_key = booking_key booking;
      opportunity_id = some p.id;
      event_type = some (booking_event_type attribution);
      attribution_type = some attribution;
      attribution_reason = some (attribution_reason_of attribution);
    };
    id = fresh;
    tenant_id = tenant;
    occurred_at = now;
  }

  -- What a booking writes, for the opportunity of its lead.
  unfoldable pub apply_booking :
      Uuid → BookingCreationInput → OpportunityRecord → Uuid → Uuid → Instant → State → State
  apply_booking tenant input p booking fresh now s =
      let attribution = attribution_of (select (of_opportunity tenant p.id) s.recovery_actions) in
      record s {
        bookings = s.bookings ++ new_booking tenant input booking ∷ [];
        opportunities =
            update_first (of_lead tenant input.lead_id) (book booking attribution now)
              s.opportunities;
        revenue_entries =
            if any (has_causation tenant (booking_key booking)) s.revenue_entries
            then s.revenue_entries
            else s.revenue_entries
              ++ booking_entry tenant input p attribution booking fresh now ∷ [];
      }

  -- The rest of the method, once the idempotency key is known to be new.
  unfoldable pub book_slot : Uuid → BookingCreationInput → Uuid → Uuid → Instant → Action Uuid
  book_slot tenant input booking fresh now = do
    taken ← gets (λ s. any (overlaps tenant input) s.bookings)
    throw_if taken (api_error 409 booking_conflict)
    found ← gets (λ s. find? (of_lead tenant input.lead_id) s.opportunities)
    p ← or_throw found (api_error 422 invalid_opportunity_context)
    modify (apply_booking tenant input p booking fresh now)
    pure booking

  -- Returns the id of the booking.
  unfoldable pub create_booking : Uuid → BookingCreationInput → Uuid → Uuid → Instant → Action Uuid
  create_booking tenant input booking fresh now = do
    require_customer_and_lead tenant input.customer_id input.lead_id
    lead ← gets (λ s. find? (is_lead tenant input.lead_id) s.leads)
    throw_if (not (takes_appointments lead)) (api_error 422 invalid_booking_workflow)
    conflict ← gets (λ s. find? (is_booking_key tenant input.idempotency_key) s.bookings)
    elim conflict [ some b ↦ pure b.id | none ↦ book_slot tenant input booking fresh now ]

abbrev pub is_refund : PaymentKind → Bool
is_refund PaymentKind.refund = true
is_refund _ = false

-- `payment.tenantId === tenantId && payment.id === id`, where `id` may be null.
abbrev pub is_payment : Uuid → Option Uuid → PaymentRecord → Bool
is_payment tenant id p = p.tenant_id == tenant && is_id p.id id

-- The refunds of a payment.
abbrev pub refunds : Uuid → Uuid → PaymentRecord → Bool
refunds tenant original p =
    p.tenant_id == tenant && is_refund p.kind && is_id original p.original_payment_id

unfoldable pub refunded_cents : Uuid → Uuid → List PaymentRecord → Cents
refunded_cents tenant original ps =
    sum_by (λ p. p.amount_cents) (select (refunds tenant original) ps)

abbrev pub fits_conversation : PaymentCreationInput → Option ConversationRecord → Bool
fits_conversation input none = false
fits_conversation input (some c) = c.customer_id == input.customer_id && c.lead_id == input.lead_id

abbrev pub is_appointment : PaymentReferenceType → Bool
is_appointment PaymentReferenceType.appointment = true
is_appointment _ = false

abbrev pub is_booking_of : Uuid → PaymentCreationInput → BookingRecord → Bool
is_booking_of tenant input b =
    b.tenant_id == tenant
    && b.id == input.reference_id
    && b.customer_id == input.customer_id
    && b.lead_id == input.lead_id

-- The checks of a refund against the payment that it names.
unfoldable pub check_refund : Uuid → PaymentCreationInput → Action (Unit {0})
check_refund tenant input = do
  found ← gets (λ s. find? (is_payment tenant input.original_payment_id) s.payments)
  original ← or_throw found (api_error 422 invalid_refund_reference)
  throw_if (is_refund original.kind || not (original.customer_id == input.customer_id))
      (api_error 422 invalid_refund_reference)
  refunded ← gets (λ s. refunded_cents tenant original.id s.payments)
  throw_if (ltb original.amount_cents (refunded + input.amount_cents))
      (api_error 422 refund_exceeds_payment)

abbrev pub new_payment : Uuid → PaymentCreationInput → Uuid → Instant → PaymentRecord
new_payment tenant input fresh now = record {
  input = input;
  id = fresh;
  tenant_id = tenant;
  created_at = now;
}

unfoldable pub create_payment :
    Uuid → PaymentCreationInput → Uuid → Instant → Action PaymentCreationResult
unfolding require_customer_and_lead check_refund
create_payment tenant input fresh now = do
  require_customer_and_lead tenant input.customer_id input.lead_id
  c ← gets (λ s. find? (is_conversation tenant input.conversation_id) s.conversations)
  throw_if (not (fits_conversation input c)) (api_error 422 invalid_payment_context)
  booked ← gets (λ s. any (is_booking_of tenant input) s.bookings)
  throw_if (is_appointment input.reference_type && not booked)
      (api_error 422 invalid_payment_reference)
  elim (is_refund input.kind) [ true ↦ check_refund tenant input | false ↦ pure tt ]
  modify (λ s. record s { payments = s.payments ++ new_payment tenant input fresh now ∷ [] })
  pure (record { payment_id = fresh; replayed = false })
