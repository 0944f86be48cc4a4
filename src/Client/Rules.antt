-- ===== src/Client/Rules.antt =====
-- The rules of src/domain/rules.ts. A function that throws a `DomainError` returns its code. Amounts
-- that are checked are integers; `max_safe_integer` is the bound of `Number.isSafeInteger`, and a
-- rate is a number of basis points.
pub mod Totals
use closer_v.Prelude.{
  ℕ, ◌+◌, ◌-◌, ◌*◌, ◌/◌, Bool, true, false, not, ◌&&◌, ◌||◌, ◌==◌, ltb, leb, Option, none, some,
  List, [], ◌∷◌, select, any, ◌≡◌, refl, ◌⊎◌, inl, inr, if◌then◌else◌,
}
use closer_v.Prelude.Int.{ℤ, pos, negsuc, neg, pos_part, neg_part, ◌+ℤ◌}
use closer_v.Domain.Values.{Uuid, Cents}
use closer_v.Client.Kinds.{
  AppointmentStatus, LeadStatus, NextActionStatus, PaymentKind, PaymentStatus, PaymentReferenceType,
  QuoteStatus,
}
use closer_v.Client.Entities.{Appointment, Lead, NextAction, Payment, QuoteItem}

-- The codes of `DomainError`, and of the errors that only have a message.
pub data DomainCode : Type 0 where
  next_action_required invalid_money empty_quote invalid_quantity invalid_discount double_booking
        not_found follow_up_blocked marketing_blocked operational_blocked follow_up_not_required
        follow_up_cadence_missing follow_up_not_scheduled invalid_operation_key idempotency_conflict
        operation_key_required revenue_event_not_found attribution_requires_collection
        attribution_evidence_required attribution_already_verified reference_mismatch
        invalid_lead_state attribution_evidence_mismatch team_member_not_found
        reactivation_not_eligible tenant_mismatch :
      DomainCode

pub data Checked {ℓ} (A : Type ℓ) : Type ℓ where
  passed : A → Checked A
  refused : DomainCode → Checked A

module _ {ℓ κ} {A : Type ℓ} {B : Type κ} where
  infixl 5 ◌>>=◌
  abbrev pub ◌>>=◌ : Checked A → (A → Checked B) → Checked B
  passed a >>= k = k a
  refused e >>= k = refused e

pub Checked-cases {ℓ} :
    {A : Type ℓ} (c : Checked A) → ((a : A) × (c ≡ passed a)) ⊎ ((e : DomainCode) × (c ≡ refused e))
Checked-cases (passed a) = inl (a, refl)
Checked-cases (refused e) = inr (e, refl)

abbrev pub check : Bool → DomainCode → Checked (Unit {0})
check test e = if test then passed tt else refused e

-- `![Won, Lost, Archived].includes(status)`
abbrev pub is_lead_active : LeadStatus → Bool
is_lead_active LeadStatus.won = false
is_lead_active LeadStatus.lost = false
is_lead_active LeadStatus.archived = false
is_lead_active _ = true

abbrev pub is_pending_action : NextActionStatus → Bool
is_pending_action NextActionStatus.pending = true
is_pending_action _ = false

-- `pending.length !== 1 || lead.nextActionId !== pending[0]?.id`, turned round.
abbrev pub is_current_action : Option Uuid → List NextAction → Bool
is_current_action (some id) (a ∷ []) = a.id == id
is_current_action _ _ = false

unfoldable pub assert_next_action_invariant : Lead → List NextAction → Checked (Unit {0})
assert_next_action_invariant lead actions =
    if is_lead_active lead.status
    then check
        (is_current_action lead.next_action_id
          (select (λ a. a.lead_id == lead.id && is_pending_action a.status) actions))
        DomainCode.next_action_required
    else passed tt

abbrev pub max_safe_integer : ℕ
max_safe_integer = 9007199254740991

-- `assertMoney`, which returns the amount.
unfoldable pub assert_money : ℤ → Checked Cents
assert_money (pos n) = if leb n max_safe_integer then passed n else refused DomainCode.invalid_money
assert_money (negsuc n) = refused DomainCode.invalid_money

-- `!Number.isSafeInteger(quantity) || quantity <= 0`
unfoldable pub assert_quantity : ℤ → Checked ℕ
assert_quantity (pos n) =
    if ltb 0 n && leb n max_safe_integer then passed n else refused DomainCode.invalid_quantity
assert_quantity (negsuc n) = refused DomainCode.invalid_quantity

pub record QuoteTotals : Type 0 where
  pub subtotal_cents : Cents
  pub discount_cents : Cents
  pub tax_cents : Cents
  pub total_cents : Cents

-- The `reduce` over the items, from the total so far.
unfoldable pub add_items : List QuoteItem → Cents → Checked Cents
add_items [] total = passed total
add_items (i ∷ is) total = assert_money i.unit_price_cents >>= λ price.
    assert_quantity i.quantity >>= λ quantity. add_items is (total + quantity * price)

-- `Math.round((cents * rate) / 10_000)`, where a tie goes up.
abbrev pub round_rate : Cents → ℕ → Cents
round_rate cents rate = (cents * rate + 5000) / 10000

abbrev pub totals_of : Cents → Cents → ℕ → QuoteTotals
totals_of subtotal discount rate = record {
  subtotal_cents = subtotal;
  discount_cents = discount;
  tax_cents = round_rate (subtotal - discount) rate;
  total_cents = (subtotal - discount) + round_rate (subtotal - discount) rate;
}

abbrev pub is_empty : List QuoteItem → Bool
is_empty [] = true
is_empty (i ∷ is) = false

unfoldable pub calculate_quote_totals : List QuoteItem → ℤ → ℕ → Checked QuoteTotals
unfolding add_items assert_money assert_quantity
calculate_quote_totals items discount rate =
    check (not (is_empty items)) DomainCode.empty_quote >>= λ _. add_items items 0 >>= λ subtotal.
    assert_money discount >>= λ cents.
    check (leb cents subtotal) DomainCode.invalid_discount >>= λ _.
    passed (totals_of subtotal cents rate)

abbrev pub is_cancelled : AppointmentStatus → Bool
is_cancelled AppointmentStatus.cancelled = true
is_cancelled _ = false

abbrev pub overlaps : Appointment → Appointment → Bool
overlaps first second =
    first.staff_id == second.staff_id
    && not (is_cancelled first.status || is_cancelled second.status)
    && ltb first.start_at second.end_at
    && ltb second.start_at first.end_at

abbrev pub is_other : Appointment → Appointment → Bool
is_other candidate appointment =
    not (appointment.id == candidate.id) && overlaps candidate appointment

unfoldable pub assert_no_double_booking : Appointment → List Appointment → Checked (Unit {0})
assert_no_double_booking candidate existing =
    check (not (any (is_other candidate) existing)) DomainCode.double_booking

abbrev pub is_refund : PaymentKind → Bool
is_refund PaymentKind.refund = true
is_refund _ = false

abbrev pub is_collected : PaymentStatus → Bool
is_collected PaymentStatus.collected = true
is_collected _ = false

abbrev pub same_reference_type : PaymentReferenceType → PaymentReferenceType → Bool
same_reference_type PaymentReferenceType.appointment PaymentReferenceType.appointment = true
same_reference_type PaymentReferenceType.quote PaymentReferenceType.quote = true
same_reference_type PaymentReferenceType.job PaymentReferenceType.job = true
same_reference_type _ _ = false

-- `referenceType === undefined || payment.referenceType === referenceType`
abbrev pub fits_type : Option PaymentReferenceType → Payment → Bool
fits_type none payment = true
fits_type (some t) payment = same_reference_type payment.reference_type t

abbrev pub counts_for : Uuid → Option PaymentReferenceType → Payment → Bool
counts_for reference t payment =
    payment.reference_id == reference && fits_type t payment && is_collected payment.status

abbrev pub signed_amount : Payment → ℤ
signed_amount payment =
    if is_refund payment.kind then neg payment.amount_cents else pos payment.amount_cents

unfoldable pub sum_signed : List Payment → ℤ
sum_signed [] = pos 0
sum_signed (p ∷ ps) = signed_amount p +ℤ sum_signed ps

unfoldable pub collected_for_reference : List Payment → Uuid → Option PaymentReferenceType → ℤ
unfolding sum_signed
collected_for_reference payments reference t = sum_signed (select (counts_for reference t) payments)

-- `Math.max(0, total - collected)`
abbrev pub rest_of : Cents → ℤ → Cents
rest_of total collected = (total + neg_part collected) - pos_part collected

-- `remainingBalance` of a total that is an amount of money.
unfoldable pub remaining_balance : Cents → List Payment → Uuid → Option PaymentReferenceType → Cents
unfolding collected_for_reference
remaining_balance total payments reference t =
    rest_of total (collected_for_reference payments reference t)

abbrev pub can_accept_quote : QuoteStatus → Bool
can_accept_quote QuoteStatus.sent = true
can_accept_quote QuoteStatus.viewed = true
can_accept_quote QuoteStatus.change_requested = true
can_accept_quote _ = false
