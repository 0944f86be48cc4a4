-- ===== src/Store/Ledger/Sound.antt =====
-- What the ledger holds once, and what stands behind its entries.
use text.Mathlib.TextEquality.{eq_iff}
use closer_v.Prelude.{
  Bool, true, false, not, ◌&&◌, ◌||◌, ◌==◌, ◌≡◌, ◌⊎◌, inl, inr, none, some, List, [], ◌∷◌, ◌++◌,
  find?, any, if◌then◌else◌, arith, All,
}
use closer_v.Prelude.Laws.{Apart, Apart-push, All-append, find?-none}
use closer_v.Domain.Values.{Uuid, Instant}
use closer_v.Domain.Model.{RevenueLedgerEntry, RevenueEntryInput, PaymentRecord}
use closer_v.Store.State.{State}
use closer_v.Store.Money.{is_refund, is_payment, has_causation, require_customer_and_lead}
use closer_v.Store.Ledger.{
  is_refunded, is_verified_stage, is_payment_stage, new_entry, apply_entry, add_entry, replay_entry,
  append_revenue_entry, is_linked,
}

-- Two entries of a tenant with one causation key.
abbrev pub same_causation : RevenueLedgerEntry → RevenueLedgerEntry → Bool
same_causation a b = has_causation a.tenant_id a.causation_key b

-- Two entries that count one payment in one of the stages `collected` and `refunded`.
abbrev pub same_event : RevenueLedgerEntry → RevenueLedgerEntry → Bool
same_event a b = is_payment_stage a.tenant_id a.input b

-- Money that is collected, refunded or recovered is the amount of a payment of that kind.
abbrev pub is_backed : List PaymentRecord → RevenueLedgerEntry → Bool
is_backed ps e =
    not (is_verified_stage e.stage) || (elim (find? (is_payment e.tenant_id e.payment_id) ps) [
      | none ↦ false
      | some p ↦
          p.amount_cents == e.amount_cents
          && (if is_refunded e.stage then is_refund p.kind else not (is_refund p.kind))
    ])

pub record IsSound (s : State) : Type 0 where
  pub causation_once : Apart same_causation s.revenue_entries
  pub counted_once : Apart same_event s.revenue_entries
  pub backed : All (λ e. is_backed s.payments e ≡ true) s.revenue_entries

pub same_causation_flip :
    (a b : RevenueLedgerEntry) → same_causation a b ≡ false → same_causation b a ≡ false
same_causation_flip a b h =
    ground (arith, eq_iff a.causation_key b.causation_key, eq_iff b.causation_key a.causation_key)

pub same_event_flip : (a b : RevenueLedgerEntry) → same_event a b ≡ false → same_event b a ≡ false
same_event_flip a b h = ground arith

module _ (tenant : Uuid) (e : RevenueEntryInput) (fresh : Uuid) (now : Instant) (s : State) where
  abbrev pub entry : RevenueLedgerEntry
  entry = new_entry tenant e (find? (is_linked tenant e) s.opportunities) fresh now

  -- What a call does to the entries: nothing, or one more, which clashes with none and is backed.
  append-entries :
      let s' = (append_revenue_entry tenant e fresh now s).1 in
      (s'.revenue_entries ≡ s.revenue_entries)
      ⊎ (s'.revenue_entries ≡ s.revenue_entries ++ entry ∷ [])
        × (find? (has_causation tenant e.causation_key) s.revenue_entries ≡ none)
        × (any (is_payment_stage tenant e) s.revenue_entries ≡ false)
        × (is_backed s.payments entry ≡ true)
  unfolding append_revenue_entry add_entry replay_entry apply_entry require_customer_and_lead
  append-entries = ground arith

  append-payments : (append_revenue_entry tenant e fresh now s).1.payments ≡ s.payments
  unfolding append_revenue_entry add_entry replay_entry apply_entry require_customer_and_lead
  append-payments = ground arith

-- Whatever a call of `appendRevenueEntry` does, the ledger stays sound: no causation key stands in it
-- twice, no payment is counted twice as collected or as refunded, and what is collected, refunded or
-- recovered is the amount of a payment of the right kind.
pub append_revenue_entry-IsSound :
    (tenant : Uuid) (e : RevenueEntryInput) (fresh : Uuid) (now : Instant) (s : State)
    → IsSound s
    → IsSound (append_revenue_entry tenant e fresh now s).1
append_revenue_entry-IsSound tenant e fresh now s h = elim (append-entries tenant e fresh now s) [
  | inl same ↦ record {
    causation_once = rw same h.causation_once;
    counted_once = rw same h.counted_once;
    backed = rw (same, append-payments tenant e fresh now s) h.backed;
  }
  | inr (pushed, new, uncounted, paid) ↦ record {
    causation_once = rw pushed (
        Apart-push same_causation s.revenue_entries (entry tenant e fresh now s)
          (λ b. same_causation_flip (entry tenant e fresh now s) b) h.causation_once
          (find?-none (has_causation tenant e.causation_key) s.revenue_entries new));
    counted_once = rw pushed (
        Apart-push same_event s.revenue_entries (entry tenant e fresh now s)
          (λ b. same_event_flip (entry tenant e fresh now s) b) h.counted_once uncounted);
    backed =
        rw (pushed, append-payments tenant e fresh now s)
          (All-append _ s.revenue_entries _ h.backed (paid, tt));
  }
]
