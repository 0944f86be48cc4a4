-- ===== src/Client/Rules/Totals.antt =====
-- The totals of a quote.
use closer_v.Prelude.{
  ℕ, ◌+◌, ◌-◌, ◌*◌, ◌/◌, ◌≤◌, ◌<◌, false, ◌≡◌, refl, ◌↔◌, ◌⊎◌, inl, inr, List, [], ◌∷◌, sum_by, All,
  ap, sym, ◌∙◌, arith,
}
use closer_v.Prelude.Int.{ℤ, pos_part, neg_part}
use closer_v.Domain.Values.{Cents}
use closer_v.Client.Entities.{QuoteItem}
use closer_v.Client.Rules.{
  DomainCode, passed, refused, Checked-cases, max_safe_integer, assert_money, assert_quantity,
  QuoteTotals, add_items, totals_of, is_empty, calculate_quote_totals,
}

-- The price is an amount of money, and the quantity a safe integer of at least one.
abbrev pub IsPriced : QuoteItem → Type 0
IsPriced i =
    (neg_part i.unit_price_cents ≡ 0)
    × (pos_part i.unit_price_cents ≤ max_safe_integer)
    × (1 ≤ pos_part i.quantity)
    × (pos_part i.quantity ≤ max_safe_integer)

-- The sum over the items of their prices by their quantities.
abbrev pub gross : List QuoteItem → Cents
gross = sum_by (λ i. pos_part i.quantity * pos_part i.unit_price_cents)

-- What a quote needs: items, all of them priced, and a discount of at most their sum.
pub record IsQuotable (items : List QuoteItem) (discount : ℤ) : Type 0 where
  pub some_items : is_empty items ≡ false
  pub priced : All IsPriced items
  pub positive : neg_part discount ≡ 0
  pub safe : pos_part discount ≤ max_safe_integer
  pub covered : pos_part discount ≤ gross items

money_cases :
    (z : ℤ)
    → ((neg_part z ≡ 0) × (pos_part z ≤ max_safe_integer) × (assert_money z ≡ passed (pos_part z)))
      ⊎ ((assert_money z ≡ refused DomainCode.invalid_money)
          × ((neg_part z ≡ 0) → (pos_part z ≤ max_safe_integer) → ⊥))
unfolding assert_money
money_cases z = ground arith

quantity_cases :
    (z : ℤ)
    → ((1 ≤ pos_part z)
        × (pos_part z ≤ max_safe_integer)
        × (assert_quantity z ≡ passed (pos_part z)))
      ⊎ ((assert_quantity z ≡ refused DomainCode.invalid_quantity)
          × ((1 ≤ pos_part z) → (pos_part z ≤ max_safe_integer) → ⊥))
unfolding assert_quantity
quantity_cases z = ground arith

items_to :
    (is : List QuoteItem) (acc n : Cents)
    → add_items is acc ≡ passed n
    → All IsPriced is × (n ≡ acc + gross is)
unfolding add_items
items_to [] acc n h = (tt, ground (arith, h))
items_to (i ∷ is) acc n h = elim (money_cases i.unit_price_cents) [
  | inr (bad, _) ↦ absurd (ground (arith, bad, h))
  | inl (z, m, ok) ↦ elim (quantity_cases i.quantity) [
    | inr (bad, _) ↦ absurd (ground (arith, ok, bad, h))
    | inl (one, most, fine) ↦
        let rest =
          items_to is (acc + pos_part i.quantity * pos_part i.unit_price_cents) n
            (rw (add_items, ok, fine) at h) in
        (((z, m, one, most), rest.0), omega (arith, rest.1))
  ]
]

items_from :
    (is : List QuoteItem) (acc : Cents)
    → All IsPriced is
    → add_items is acc ≡ passed (acc + gross is)
unfolding add_items
items_from [] acc h = ground arith
items_from (i ∷ is) acc h = elim (money_cases i.unit_price_cents) [
  | inr (_, bad) ↦ absurd (bad h.0.0 h.0.1)
  | inl (z, m, ok) ↦ elim (quantity_cases i.quantity) [
    | inr (_, bad) ↦ absurd (bad h.0.2 h.0.3)
    | inl (one, most, fine) ↦
        let amount = pos_part i.quantity * pos_part i.unit_price_cents in
        let rest = items_from is (acc + amount) h.1 in rw (ok, fine, rest) (ap passed (omega arith))
  ]
]

totals_to :
    (items : List QuoteItem) (discount : ℤ) (rate : ℕ) (t : QuoteTotals)
    → calculate_quote_totals items discount rate ≡ passed t
    → IsQuotable items discount × (t ≡ totals_of (gross items) (pos_part discount) rate)
unfolding calculate_quote_totals
totals_to items discount rate t h = elim (Checked-cases (add_items items 0)) [
  | inr (e, bad) ↦ absurd (ground (arith, bad, h))
  | inl (n, ok) ↦ elim (money_cases discount) [
    | inr (bad, _) ↦ absurd (ground (arith, ok, bad, h))
    | inl (z, m, fine) ↦
        let (priced, sum) = items_to items 0 n ok in
        (
          record {
            some_items = ground (arith, ok, fine, h);
            priced = priced;
            positive = z;
            safe = m;
            covered = ground (arith, ok, fine, h, sum);
          },
          ground (arith, ok, fine, h, sum),
        )
  ]
]

totals_from :
    (items : List QuoteItem) (discount : ℤ) (rate : ℕ)
    → IsQuotable items discount
    → calculate_quote_totals items discount rate
      ≡ passed (totals_of (gross items) (pos_part discount) rate)
unfolding calculate_quote_totals
totals_from items discount rate h = elim (money_cases discount) [
  | inr (_, bad) ↦ absurd (bad h.positive h.safe)
  | inl (z, m, fine) ↦ ground (arith, fine, items_from items 0 h.priced, h.some_items, h.covered)
]

rounded :
    (n tax : ℕ) → tax * 10000 ≤ n + 5000 → n + 5000 < tax * 10000 + 10000 → tax ≡ (n + 5000) / 10000
rounded n tax low high = omega arith

near :
    (n : ℕ)
    → ((n + 5000) / 10000 * 10000 ≤ n + 5000) × (n + 5000 < (n + 5000) / 10000 * 10000 + 10000)
near n = (omega arith, omega arith)

same_totals :
    (a b : QuoteTotals)
    → a.subtotal_cents ≡ b.subtotal_cents
    → a.discount_cents ≡ b.discount_cents
    → a.tax_cents ≡ b.tax_cents
    → a.total_cents ≡ b.total_cents
    → a ≡ b
same_totals a b s d x t = ground arith

safe_total :
    (g m rate tax total : ℕ)
    → m ≤ g
    → g * (10000 + rate) ≤ max_safe_integer
    → tax * 10000 ≤ m * rate + 5000
    → total ≡ m + tax
    → total ≤ max_safe_integer
safe_total g m rate tax total less safe low sum =
    let product : m * rate ≤ g * rate = grind (arith, less) in
    let split : g * (10000 + rate) ≡ g * 10000 + g * rate = grind arith in
    omega (arith, less, safe, low, sum, product, split)

-- Where the sum of the items, with ten thousand and the rate as its factor, is a safe integer, so that
-- every number of the computation is one: a quote is accepted exactly when it has items, every item has a price that is an amount of money
-- and a quantity that is a positive safe integer, and the discount is an amount of money that the
-- sum of the items covers. Its totals are then the sum, the discount, the tax on the difference,
-- which is the whole cent nearest to the exact tax, and the difference with the tax; and the total is
-- a safe integer.
pub calculate_quote_totals_iff :
    (items : List QuoteItem) (discount : ℤ) (rate : ℕ) (t : QuoteTotals)
    → gross items * (10000 + rate) ≤ max_safe_integer
    → ((calculate_quote_totals items discount rate ≡ passed t) ↔ (
        IsQuotable items discount
        × (t.subtotal_cents ≡ gross items)
        × (t.discount_cents ≡ pos_part discount)
        × (t.tax_cents * 10000 ≤ (gross items - pos_part discount) * rate + 5000)
        × ((gross items - pos_part discount) * rate + 5000 < t.tax_cents * 10000 + 10000)
        × (t.total_cents + pos_part discount ≡ gross items + t.tax_cents)))
      × ((calculate_quote_totals items discount rate ≡ passed t) → t.total_cents ≤ max_safe_integer)
calculate_quote_totals_iff items discount rate t safe = (
  (
    (λ h.
        let (q, e) = totals_to items discount rate t h in
        let bounds = near ((gross items - pos_part discount) * rate) in
        rw e (q, refl, refl, bounds.0, bounds.1, omega (arith, q.covered))),
    (λ (q, s, d, low, high, total).
        totals_from items discount rate q
        ∙ ap passed (
            sym (
              same_totals t (totals_of (gross items) (pos_part discount) rate) s d
                (rounded ((gross items - pos_part discount) * rate) t.tax_cents low high)
                (let x = rounded ((gross items - pos_part discount) * rate) t.tax_cents low high in
                  omega (arith, q.covered, total, x))))),
  ),
  (λ h.
      let (q, e) = totals_to items discount rate t h in
      let bounds = near ((gross items - pos_part discount) * rate) in
      rw e (
        safe_total (gross items) (gross items - pos_part discount) rate
          (((gross items - pos_part discount) * rate + 5000) / 10000)
          ((gross items - pos_part discount)
            + ((gross items - pos_part discount) * rate + 5000) / 10000)
          (omega arith) safe bounds.0 refl)),
)
