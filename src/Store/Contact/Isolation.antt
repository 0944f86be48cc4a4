-- ===== src/Store/Contact/Isolation.antt =====
-- What opting out leaves alone.
use closer_v.Prelude.{
  false, ◌==◌, ◌≡◌, refl, inl, inr, List, [], ◌∷◌, find?, select, update_where, arith, ◌∙◌,
  Option-cases,
}
use closer_v.Prelude.Laws.{select-update_where}
use closer_v.Domain.Values.{Uuid, Instant, is_open}
use closer_v.Domain.Opportunity.{OpportunityRecord, RecoveryActionRecord}
use closer_v.Store.State.{State}
use closer_v.Store.Lookup.{is_customer}
use closer_v.Store.Contact.{
  stops, stop, acts_for, cancel_action, cancel_actions, follows_any, cancel_follow_up,
  apply_opt_out, record_customer_opt_out,
}

cancel_actions_keep :
    (t tenant : Uuid) (now : Instant) (ps : List OpportunityRecord)
    (actions : List RecoveryActionRecord)
    → (t == tenant) ≡ false
    → select (λ a. a.tenant_id == t) (cancel_actions tenant now ps actions)
      ≡ select (λ a. a.tenant_id == t) actions
unfolding cancel_actions
cancel_actions_keep t tenant now [] actions h = refl
cancel_actions_keep t tenant now (p ∷ ps) actions h =
    cancel_actions_keep t tenant now ps
      (update_where (acts_for tenant p.id is_open) (cancel_action now) actions) h
    ∙ select-update_where (λ a. a.tenant_id == t) (acts_for tenant p.id is_open) (cancel_action now)
        (λ a e. ground (arith, e, h)) (λ a. refl) actions

-- An opt-out stays within its tenant: the opportunities, recovery actions and follow-ups of every
-- other tenant are the same afterwards, in the same order, whatever the call returns.
pub opt_out_isolated :
    (t tenant customer : Uuid) (now : Instant) (s : State)
    → (t == tenant) ≡ false
    → let s' = (record_customer_opt_out tenant customer now s).1 in
      (select (λ p. p.tenant_id == t) s'.opportunities
        ≡ select (λ p. p.tenant_id == t) s.opportunities)
      × (select (λ a. a.tenant_id == t) s'.recovery_actions
          ≡ select (λ a. a.tenant_id == t) s.recovery_actions)
      × (select (λ f. f.tenant_id == t) s'.follow_ups ≡ select (λ f. f.tenant_id == t) s.follow_ups)
unfolding record_customer_opt_out apply_opt_out
opt_out_isolated t tenant customer now s h =
    elim (Option-cases (find? (is_customer tenant customer) s.customers)) [
      | inl e ↦ rw e (refl, refl, refl)
      | inr (c, e) ↦ rw e (
        select-update_where (λ p. p.tenant_id == t) (stops tenant customer) (stop now)
            (λ p k. ground (arith, k, h)) (λ p. refl) s.opportunities,
        cancel_actions_keep t tenant now (select (stops tenant customer) s.opportunities)
            s.recovery_actions h,
        select-update_where (λ f. f.tenant_id == t)
            (follows_any tenant (select (stops tenant customer) s.opportunities))
            (cancel_follow_up "OPT_OUT" now) (λ f k. ground (arith, k, h)) (λ f. refl) s.follow_ups,
      )
    ]
