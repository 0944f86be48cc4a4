-- ===== src/Examples/Contact.antt =====
-- Consent, invitations and approvals at concrete inputs.
use closer_v.Prelude.{◌≡◌, refl, ◌⊎◌, true, false, ◌==◌, some, any, find?, select, ◌≢◌, ◌∷◌, []}
use closer_v.Domain.Values.{OpportunityStatus, RecoveryState, OpportunityAutonomyLevel}
use closer_v.Domain.Model.{
  ConversationMode, FollowUpJobRecord, OrganizationMembership, OrganizationRole,
}
use closer_v.Store.State.{
  State, ok, err, api_error, follow_up_contact_blocked, invitation_already_used,
}
use closer_v.Store.Lookup.{is_opted_out, is_conversation, is_some, has_passed}
use closer_v.Store.Contact.{
  start_human_takeover, follows, hand_over, stops, record_customer_opt_out,
}
use closer_v.Store.Contact.Isolation.{opt_out_isolated}
use closer_v.Store.Contact.Gaps.{opt_out_misses}
use closer_v.Store.Contact.Takeover.{takeover_silences, takeover_blocks}
use closer_v.Examples.Data.{
  opportunity, queued_store, store, waiting_store, waiting_action, invited_store, actor,
  follow_up_input, conversation,
}
use closer_v.Domain.Opportunity.{RecoveryActionRecord}
use closer_v.Store.Contact.OptOut.{opt_out_stops, opt_out_blocks}
use closer_v.Store.FollowUps.{create_follow_up}
use closer_v.Store.Access.{get_membership, accept_invitation}
use closer_v.Store.Access.Invitations.{invitation_once, acceptance_grants}
use closer_v.Store.Recovery.{
  is_action, awaits_approval, approve, approve_found, approve_recovery_action,
}
use closer_v.Store.Recovery.Approval.{approve-waited}

opt_out_stops_example :
    let s' = (record_customer_opt_out 1 2 100 store).1 in
    (any (stops 1 2) s'.opportunities ≡ false) × (is_opted_out 1 2 s'.opted_out_customers ≡ true)
unfolding record_customer_opt_out
opt_out_stops_example = opt_out_stops 1 2 100 store refl

opt_out_blocks_example :
    let s' = (record_customer_opt_out 1 2 100 store).1 in
    create_follow_up 1 follow_up_input 50 200 s'
    ≡ (err (api_error 409 follow_up_contact_blocked), s')
unfolding record_customer_opt_out
opt_out_blocks_example = opt_out_blocks 1 follow_up_input 50 100 200 store refl refl refl

invitation_once_example :
    let s' = (accept_invitation "hash-1" actor 100 invited_store).1 in
    accept_invitation "hash-1" actor 200 s' ≡ (err (api_error 409 invitation_already_used), s')
unfolding accept_invitation
invitation_once_example = invitation_once "hash-1" actor actor 100 200 invited_store refl

-- The owner of the tenant who accepts an invitation as a member is a member from then on.
acceptance_grants_example :
    (m : OrganizationMembership) × (get_membership 20 1
        (accept_invitation "hash-1" actor 100 invited_store).1
      ≡ some m)
    × (m.active ≡ true)
    × (m.role ≡ OrganizationRole.member)
unfolding accept_invitation
acceptance_grants_example = acceptance_grants "hash-1" actor 100 invited_store refl

abbrev ownership : OrganizationMembership
ownership = record {
  tenant_id = 1;
  tenant_name = "Northwind";
  role = OrganizationRole.owner;
  active = true;
}

approve-waited_example :
    (old : RecoveryActionRecord) × (find? (is_action 1 5 12) waiting_store.recovery_actions
      ≡ some old)
    × (((approve 20 100 waiting_action ≡ old)
          × (is_some old.approved_at ≡ true)
          × ((approve_recovery_action 1 5 12 actor 100 waiting_store).1 ≡ waiting_store))
        ⊎ ((awaits_approval old.status ≡ true)
            × (has_passed old.valid_until 100 ≡ false)
            × (approve 20 100 waiting_action ≡ approve 20 100 old)))
unfolding approve_recovery_action approve_found
approve-waited_example = approve-waited 1 5 12 actor 100 waiting_store refl

-- Another tenant's opportunity, beside the one that is stopped.
abbrev two_tenants : State
two_tenants = record (store) {
  opportunities =
      record (opportunity OpportunityStatus.engaged RecoveryState.at_risk
        OpportunityAutonomyLevel.suggest) { tenant_id = 9 }
      ∷ store.opportunities;
}

opt_out_isolated_example :
    let s' = (record_customer_opt_out 1 2 100 two_tenants).1 in
    (select (λ p. p.tenant_id == 9) s'.opportunities
      ≡ select (λ p. p.tenant_id == 9) two_tenants.opportunities)
    × (select (λ a. a.tenant_id == 9) s'.recovery_actions
        ≡ select (λ a. a.tenant_id == 9) two_tenants.recovery_actions)
    × (select (λ f. f.tenant_id == 9) s'.follow_ups
        ≡ select (λ f. f.tenant_id == 9) two_tenants.follow_ups)
opt_out_isolated_example = opt_out_isolated 9 1 2 100 two_tenants refl

takeover_silences_example :
    let s' = (start_human_takeover 1 4 actor 60 100 queued_store).1 in
    (any (follows 1 (some 4)) s'.follow_ups ≡ false)
    × (find? (is_conversation 1 4) s'.conversations
        ≡ some (hand_over ConversationMode.human_active 100 conversation))
takeover_silences_example = takeover_silences 1 4 actor 60 100 queued_store refl

takeover_blocks_example :
    let s' = (start_human_takeover 1 4 actor 60 100 queued_store).1 in
    ((create_follow_up 1 follow_up_input 61 200 s').1 ≡ s')
    × ((f : FollowUpJobRecord) → (create_follow_up 1 follow_up_input 61 200 s').0 ≢ ok f)
takeover_blocks_example = takeover_blocks 1 follow_up_input actor 60 61 100 200 queued_store refl

-- The customer's only deal is won, and a follow-up is scheduled.
abbrev won_store : State
won_store = record (queued_store) {
  opportunities =
      opportunity OpportunityStatus.won RecoveryState.recovered OpportunityAutonomyLevel.suggest
      ∷ [];
}

opt_out_misses_example :
    (record_customer_opt_out 1 2 100 won_store).1.follow_ups ≡ queued_store.follow_ups
opt_out_misses_example = opt_out_misses 1 2 100 won_store refl
