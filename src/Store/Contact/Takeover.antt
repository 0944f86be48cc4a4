-- ===== src/Store/Contact/Takeover.antt =====
-- What a human takeover stops.
use closer_v.Prelude.{
  false, ◌≡◌, ◌≢◌, refl, Option, none, some, find?, any, update_first, update_where, arith,
}
use closer_v.Prelude.Laws.{any-update_where, find?-update_first}
use closer_v.Domain.Values.{Uuid, Instant}
use closer_v.Domain.Opportunity.{OpportunityRecord}
use closer_v.Domain.Model.{
  ConversationRecord, ConversationMode, FollowUpJobRecord, AuthenticatedIdentity,
  FollowUpCreationInput,
}
use closer_v.Store.State.{State, ok}
use closer_v.Store.Lookup.{is_conversation, talks_in}
use closer_v.Store.Contact.{
  follows, cancel_follow_up, hand_over, call_human_for, apply_takeover, start_human_takeover,
}
use closer_v.Store.FollowUps.{create_follow_up}

call_human_for-kept :
    (tenant user : Uuid) (now : Instant) (found : Option OpportunityRecord) (s : State)
    → let s' = call_human_for tenant user now found s in
      (s'.follow_ups ≡ s.follow_ups)
      × (s'.conversations ≡ s.conversations)
      × (s'.opted_out_customers ≡ s.opted_out_customers)
unfolding call_human_for
call_human_for-kept tenant user now none s = (refl, refl, refl)
call_human_for-kept tenant user now (some p) s = ground arith

module _ (tenant conversation : Uuid) (actor : AuthenticatedIdentity) (fresh : Uuid) (now : Instant)
    (s : State) where
  takeover-writes :
      {c : ConversationRecord}
      → find? (is_conversation tenant conversation) s.conversations ≡ some c
      → let s' = (start_human_takeover tenant conversation actor fresh now s).1 in
        (s'.follow_ups
          ≡ update_where
              (follows tenant (some conversation))
              (cancel_follow_up "HUMAN_TAKEOVER" now)
              s.follow_ups)
        × (s'.conversations
            ≡ update_first
                (is_conversation tenant conversation)
                (hand_over ConversationMode.human_active now)
                s.conversations)
  unfolding start_human_takeover apply_takeover
  takeover-writes found = rw found (
    (call_human_for-kept tenant actor.user_id now
        (find? (talks_in tenant conversation) s.opportunities) _).0,
    (call_human_for-kept tenant actor.user_id now
        (find? (talks_in tenant conversation) s.opportunities) _).1,
  )

  -- While a human has the conversation, the assistant is silent: after a takeover of a conversation
  -- that exists, no follow-up of it is pending, and its mode is HUMAN_ACTIVE.
  pub takeover_silences :
      {c : ConversationRecord}
      → find? (is_conversation tenant conversation) s.conversations ≡ some c
      → let s' = (start_human_takeover tenant conversation actor fresh now s).1 in
        (any (follows tenant (some conversation)) s'.follow_ups ≡ false)
        × (find? (is_conversation tenant conversation) s'.conversations
            ≡ some (hand_over ConversationMode.human_active now c))
  takeover_silences {c = c} found =
      let writes = takeover-writes found in
      (
        rw writes.0 (
            any-update_where (follows tenant (some conversation))
              (cancel_follow_up "HUMAN_TAKEOVER" now) (λ f. ground arith) s.follow_ups),
        rw writes.1 (
            find?-update_first (is_conversation tenant conversation)
              (hand_over ConversationMode.human_active now) (λ x e. e) s.conversations c found),
      )

paused :
    (tenant : Uuid) (input : FollowUpCreationInput) (fresh : Uuid) (later : Instant) (s : State)
    (c : ConversationRecord)
    → find? (is_conversation tenant input.conversation_id) s.conversations ≡ some c
    → c.mode ≡ ConversationMode.human_active
    → ((create_follow_up tenant input fresh later s).1 ≡ s)
      × ((f : FollowUpJobRecord) → (create_follow_up tenant input fresh later s).0 ≢ ok f)
unfolding create_follow_up
paused tenant input fresh later s c found mode =
    (ground (arith, found, mode), λ f. ground (arith, found, mode))

-- After a takeover of a conversation that exists, no follow-up can be created for it: every call
-- of `createFollowUp` for it throws, and writes nothing.
pub takeover_blocks :
    (tenant : Uuid) (input : FollowUpCreationInput) (actor : AuthenticatedIdentity)
    (fresh fresh' : Uuid) (now later : Instant) (s : State) {c : ConversationRecord}
    → find? (is_conversation tenant input.conversation_id) s.conversations ≡ some c
    → let s' = (start_human_takeover tenant input.conversation_id actor fresh now s).1 in
      ((create_follow_up tenant input fresh' later s').1 ≡ s')
      × ((f : FollowUpJobRecord) → (create_follow_up tenant input fresh' later s').0 ≢ ok f)
takeover_blocks tenant input actor fresh fresh' now later s {c = c} found =
    paused tenant input fresh' later
      (start_human_takeover tenant input.conversation_id actor fresh now s).1
      (hand_over ConversationMode.human_active now c)
      (takeover_silences tenant input.conversation_id actor fresh now s found).1 refl
