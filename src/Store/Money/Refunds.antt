-- ===== src/Store/Money/Refunds.antt =====
-- What is refunded of a payment never exceeds it.
use closer_v.Prelude.{
  ◌+◌, ◌≤◌, true, ◌≡◌, ◌⊎◌, inl, inr, Option, none, some, List, [], ◌∷◌, ◌++◌, find?, if◌then◌else◌,
  arith, Option-cases, Bool-cases,
}
use closer_v.Prelude.Laws.{select-append, sum_by-append, find?-append_found, find?-holds}
use closer_v.Domain.Values.{Uuid, Instant, Cents}
use closer_v.Domain.Model.{PaymentRecord, PaymentCreationInput}
use closer_v.Store.State.{State}
use closer_v.Store.Money.{
  is_refund, is_payment, refunds, refunded_cents, new_payment, create_payment,
}

-- How much of the payment with an id may be refunded: nothing of a refund or of no payment.
abbrev pub limit_of : Option PaymentRecord → Cents
limit_of none = 0
limit_of (some p) = if is_refund p.kind then 0 else p.amount_cents

abbrev pub refundable_cents : Uuid → Uuid → List PaymentRecord → Cents
refundable_cents tenant id ps = limit_of (find? (is_payment tenant (some id)) ps)

-- Every payment covers its refunds, and every refund has a payment that covers it.
abbrev pub RefundsCovered : List PaymentRecord → Type 0
RefundsCovered ps = (tenant id : Uuid) → refunded_cents tenant id ps ≤ refundable_cents tenant id ps

refunded-push :
    (tenant id : Uuid) (ps : List PaymentRecord) (p : PaymentRecord)
    → refunded_cents tenant id (ps ++ p ∷ [])
      ≡ refunded_cents tenant id ps + (if refunds tenant id p then p.amount_cents else 0)
unfolding refunded_cents
refunded-push tenant id ps p =
    rw (select-append (refunds tenant id) ps (p ∷ []), sum_by-append) (ground arith)

refundable-push :
    (tenant id : Uuid) (ps : List PaymentRecord) (p : PaymentRecord)
    → refundable_cents tenant id ps ≤ refundable_cents tenant id (ps ++ p ∷ [])
refundable-push tenant id ps p = elim (Option-cases (find? (is_payment tenant (some id)) ps)) [
  | inl e ↦ rw e (omega arith)
  | inr (q, e) ↦
      rw (e, find?-append_found (is_payment tenant (some id)) ps (p ∷ []) q e) (omega arith)
]

module _ (tenant : Uuid) (input : PaymentCreationInput) (fresh : Uuid) (now : Instant)
    (s : State) where
  -- What a call does to the payments: nothing, or one more.
  pub create_payment-payments :
      ((create_payment tenant input fresh now s).1.payments ≡ s.payments)
      ⊎ ((create_payment tenant input fresh now s).1.payments
          ≡ s.payments ++ new_payment tenant input fresh now ∷ [])
  unfolding create_payment
  create_payment-payments = ground arith

  -- A refund is pushed only where the rest of its payment covers it.
  refund_covered :
      (t id : Uuid)
      → refunds t id (new_payment tenant input fresh now) ≡ true
      → ((create_payment tenant input fresh now s).1.payments ≡ s.payments)
        ⊎ (refunded_cents t id s.payments + input.amount_cents ≤ refundable_cents t id s.payments)
  unfolding create_payment
  refund_covered t id r = elim (Option-cases input.original_payment_id) [
    | inl e ↦ absurd (ground (arith, e))
    | inr (o, e) ↦
        elim (Option-cases (find? (is_payment tenant input.original_payment_id) s.payments)) [
          | inl missing ↦ inl (ground (arith, missing))
          | inr (p, found) ↦ ground (
            arith,
            e,
            found,
            r,
            find?-holds (is_payment tenant input.original_payment_id) s.payments p found,
          )
        ]
  ]

-- Pushing a payment that is covered keeps all covered.
push-RefundsCovered :
    (tenant id : Uuid) (ps : List PaymentRecord) (p : PaymentRecord)
    → refunded_cents tenant id ps ≤ refundable_cents tenant id ps
    → (refunds tenant id p ≡ true
        → refunded_cents tenant id ps + p.amount_cents ≤ refundable_cents tenant id ps)
    → refunded_cents tenant id (ps ++ p ∷ []) ≤ refundable_cents tenant id (ps ++ p ∷ [])
push-RefundsCovered tenant id ps p h covered = elim (Bool-cases (refunds tenant id p)) [
  | inl r ↦
      ground (arith, refunded-push tenant id ps p, refundable-push tenant id ps p, covered r, r)
  | inr r ↦ ground (arith, refunded-push tenant id ps p, refundable-push tenant id ps p, r)
]

-- The refunds of a payment never add up to more than its amount: whatever a call of `createPayment`
-- does, every payment still covers its refunds.
pub create_payment-RefundsCovered :
    (tenant : Uuid) (input : PaymentCreationInput) (fresh : Uuid) (now : Instant) (s : State)
    → RefundsCovered s.payments
    → RefundsCovered (create_payment tenant input fresh now s).1.payments
create_payment-RefundsCovered tenant input fresh now s h t id =
    elim (create_payment-payments tenant input fresh now s) [
      | inl same ↦ rw same (h t id)
      | inr pushed ↦ elim (Bool-cases (refunds t id (new_payment tenant input fresh now))) [
        | inl r ↦ elim (refund_covered tenant input fresh now s t id r) [
          | inl same ↦ rw same (h t id)
          | inr room ↦ rw pushed (push-RefundsCovered t id s.payments _ (h t id) (λ _. room))
        ]
        | inr r ↦
            rw pushed
              (push-RefundsCovered t id s.payments _ (h t id) (λ q. absurd (ground (arith, q, r))))
      ]
    ]
