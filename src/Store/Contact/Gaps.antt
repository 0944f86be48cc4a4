-- ===== src/Store/Contact/Gaps.antt =====
-- Where opting out does not reach.
use closer_v.Prelude.{
  Bool, false, ◌≡◌, refl, inl, inr, List, [], ◌∷◌, find?, any, select, update_where, arith,
  Option-cases,
}
use closer_v.Domain.Values.{Uuid, Instant}
use closer_v.Store.State.{State}
use closer_v.Store.Lookup.{is_customer}
use closer_v.Store.Contact.{
  stops, follows_any, cancel_follow_up, apply_opt_out, record_customer_opt_out,
}

module _ {ℓ} {A : Type ℓ} (p : A → Bool) where
  select-none : (xs : List A) → any p xs ≡ false → select p xs ≡ []
  select-none [] h = refl
  select-none (x ∷ xs) h = ground (arith, select-none xs)

  update_where-none : (f : A → A) (xs : List A) → ((x : A) → p x ≡ false) → update_where p f xs ≡ xs
  update_where-none f [] h = refl
  update_where-none f (x ∷ xs) h = ground (arith, h x, update_where-none f xs h)

-- An opt-out reaches follow-ups only through the opportunities that it stops: where the customer has
-- none to stop, every follow-up stays as it is, also a pending one of that customer.
pub opt_out_misses :
    (tenant customer : Uuid) (now : Instant) (s : State)
    → any (stops tenant customer) s.opportunities ≡ false
    → (record_customer_opt_out tenant customer now s).1.follow_ups ≡ s.follow_ups
unfolding record_customer_opt_out apply_opt_out
opt_out_misses tenant customer now s h =
    elim (Option-cases (find? (is_customer tenant customer) s.customers)) [
      | inl e ↦ rw e refl
      | inr (c, e) ↦
          rw (e, select-none (stops tenant customer) s.opportunities h)
            (update_where-none (follows_any tenant []) (cancel_follow_up "OPT_OUT" now) s.follow_ups
              (λ f. ground arith))
    ]
