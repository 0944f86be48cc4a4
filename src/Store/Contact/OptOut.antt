-- ===== src/Store/Contact/OptOut.antt =====
-- What opting out stops.
use closer_v.Prelude.{
  true, false, ◌&&◌, ◌==◌, ◌≡◌, inl, inr, some, List, [], ◌∷◌, find?, any, arith, Bool-cases,
  Option-cases,
}
use closer_v.Prelude.Laws.{any-update_where, any-append}
use closer_v.Domain.Values.{Uuid, Instant}
use closer_v.Domain.Opportunity.{OpportunityRecord}
use closer_v.Store.State.{State, OptedOut, ok, err, api_error, follow_up_contact_blocked}
use closer_v.Domain.Model.{ConversationRecord, FollowUpCreationInput}
use closer_v.Store.FollowUps.{create_follow_up}
use closer_v.Store.Lookup.{is_customer, is_opted_out, is_conversation}
use closer_v.Store.Contact.{
  stops, stop, add_opted_out, apply_opt_out, OptOutResult, record_customer_opt_out,
}

add_opted_out-is_opted_out :
    (tenant customer : Uuid) (set : List OptedOut)
    → is_opted_out tenant customer (add_opted_out tenant customer set) ≡ true
add_opted_out-is_opted_out tenant customer set =
    elim (Bool-cases (is_opted_out tenant customer set)) [
      | inl e ↦ rw e e
      | inr e ↦ rw e (
          ground (
            arith,
            any-append (λ e'. e'.tenant_id == tenant && e'.customer_id == customer) set
                (record { tenant_id = tenant; customer_id = customer } ∷ []),
          ))
    ]

stop-stops :
    (tenant customer : Uuid) (now : Instant) (p : OpportunityRecord)
    → stops tenant customer (stop now p) ≡ false
stop-stops tenant customer now p = ground arith

-- Where an opt-out returns, the customer then has no opportunity that is neither won nor marked
-- DO_NOT_CONTACT, and is among those who opted out.
pub opt_out_stops :
    (tenant customer : Uuid) (now : Instant) (s : State) {r : OptOutResult}
    → (record_customer_opt_out tenant customer now s).0 ≡ ok r
    → let s' = (record_customer_opt_out tenant customer now s).1 in
      (any (stops tenant customer) s'.opportunities ≡ false)
      × (is_opted_out tenant customer s'.opted_out_customers ≡ true)
unfolding record_customer_opt_out apply_opt_out
opt_out_stops tenant customer now s h =
    elim (Option-cases (find? (is_customer tenant customer) s.customers)) [
      | inl e ↦ absurd (ground (arith, e, h))
      | inr (c, e) ↦ rw e (
        any-update_where (stops tenant customer) (stop now) (stop-stops tenant customer now)
            s.opportunities,
        add_opted_out-is_opted_out tenant customer s.opted_out_customers,
      )
    ]

blocked :
    (tenant : Uuid) (input : FollowUpCreationInput) (fresh : Uuid) (later : Instant) (s : State)
    → is_opted_out tenant input.customer_id s.opted_out_customers ≡ true
    → (c : ConversationRecord)
    → find? (is_conversation tenant input.conversation_id) s.conversations ≡ some c
    → c.customer_id ≡ input.customer_id
    → create_follow_up tenant input fresh later s
      ≡ (err (api_error 409 follow_up_contact_blocked), s)
unfolding create_follow_up
blocked tenant input fresh later s out c found owned = ground (arith, out, found, owned)

opt_out-conversations :
    (tenant customer : Uuid) (now : Instant) (s : State)
    → (record_customer_opt_out tenant customer now s).1.conversations ≡ s.conversations
unfolding record_customer_opt_out apply_opt_out
opt_out-conversations tenant customer now s = ground arith

-- After a customer has opted out, a follow-up for any of that customer's conversations is refused
-- and nothing is written, whatever the mode of the conversation and also where the idempotency key
-- was used before.
pub opt_out_blocks :
    (tenant : Uuid) (input : FollowUpCreationInput) (fresh : Uuid) (now later : Instant) (s : State)
    {r : OptOutResult} {c : ConversationRecord}
    → (record_customer_opt_out tenant input.customer_id now s).0 ≡ ok r
    → find? (is_conversation tenant input.conversation_id) s.conversations ≡ some c
    → c.customer_id ≡ input.customer_id
    → let s' = (record_customer_opt_out tenant input.customer_id now s).1 in
      create_follow_up tenant input fresh later s'
      ≡ (err (api_error 409 follow_up_contact_blocked), s')
opt_out_blocks tenant input fresh now later s {c = c} h found owned =
    blocked tenant input fresh later (record_customer_opt_out tenant input.customer_id now s).1
      (opt_out_stops tenant input.customer_id now s h).1 c
      (rw (opt_out-conversations tenant input.customer_id now s) found) owned
