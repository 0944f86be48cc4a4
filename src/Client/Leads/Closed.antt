-- ===== src/Client/Leads/Closed.antt =====
-- A lead that is closed as lost stays found as such.
use closer_v.Prelude.{
  true, ◌&&◌, ◌==◌, ◌≡◌, refl, sym, ◌∙◌, subst, ap, inl, inr, Option, none, some, List, arith,
  Bool-cases, ==_refl,
}
use closer_v.Prelude.Laws.{find?-holds}
use closer_v.Domain.Values.{Uuid, Key, Instant}
use closer_v.Client.Kinds.{ConversationStage, OpportunityLostReason}
use closer_v.Client.Entities.{Activity, Conversation, Lead}
use closer_v.Client.Rules.{DomainCode, Checked, passed, refused}
use closer_v.Client.Repository.{is_row, get, put}
use closer_v.Client.Repository.Refinement.{get-put}
use closer_v.Client.Database.{
  Database, Work, or_fail, save_in, save_in-own, save_in-other, in_leads, in_conversations,
  in_activities, lead_entity, conversation_entity, activity_entity, follow,
}
use closer_v.Client.Journey.Stages.{is_lost}
use closer_v.Client.Timeline.{
  RecordActivityInput, is_same_activity, new_activity, existing_activity, replay_or_save,
  record_activity,
}
use closer_v.Client.Leads.{
  clear_pending_actions, closed_conversation, note_lost, lost_as, has_reason, is_won, end_lost,
  close_open, close_found, close_opportunity_lost,
}

-- Where the method starts in a database of the first kind and returns, it ends in one of the second.
abbrev pub Ensures : {A : Type 0} → (Database → Type 0) → Work A → (A → Database → Type 0) → Type 0
Ensures {A = A} P m Q = (d : Database) → P d → (a : A) → (m d).0 ≡ passed a → Q a (m d).1

no_pass : {C : Type 0} {x : DomainCode} {c : C} → refused x ≡ passed c → ⊥
no_pass e = ground (arith, e)

same : {a b : Lead} → passed a ≡ passed b → a ≡ b
same e = ground (arith, e)

-- What a step ensures, the next steps start from.
pub Ensures-follow :
    {A B : Type 0} (Q : A → Database → Type 0) (R : B → Database → Type 0) (f : A → Work B)
    (r : Checked A × Database)
    → ((a : A) → r.0 ≡ passed a → Q a r.1)
    → ((a : A) → Ensures (Q a) (f a) R)
    → (b : B) → (follow f r).0 ≡ passed b
    → R b (follow f r).1
Ensures-follow Q R f (passed a, d) q next b e = next a d (q a refl) b e
Ensures-follow Q R f (refused x, d) q next b e = absurd (no_pass e)

module _ (P : List Lead → Type 0) where
  -- What leaves the leads alone keeps what holds of them.
  abbrev KeepsLeads : {A : Type 0} → Work A → Type 0
  KeepsLeads m = (d : Database) → P d.leads → P (m d).1.leads

  conversation_kept :
      (business : Uuid) (c : Conversation) → KeepsLeads (save_in in_conversations business c)
  conversation_kept business c d h = elim (Bool-cases (c.business_id == business)) [
    | inl own ↦ rw (save_in-own in_conversations business c d (ground (arith, own))) h
    | inr other ↦ rw (save_in-other in_conversations business c d other) h
  ]

  replay_kept :
      (input : RecordActivityInput) (fresh : Uuid) (now : Instant) (o : Option Activity)
      → KeepsLeads (replay_or_save input fresh now o)
  replay_kept input fresh now none d h =
      rw (save_in-own in_activities input.business_id (new_activity input fresh now) d refl) h
  replay_kept input fresh now (some a) d h = elim (Bool-cases (is_same_activity input a)) [
    | inl t ↦ rw t h
    | inr t ↦ rw t h
  ]

  activity_kept :
      (input : RecordActivityInput) (fresh : Uuid) (now : Instant)
      → KeepsLeads (record_activity input fresh now)
  unfolding record_activity
  activity_kept input fresh now d h =
      replay_kept input fresh now (existing_activity input.business_id input.operation_key d) d h

-- The lead that was returned is found, and lost.
abbrev IsClosedAs : Uuid → Uuid → Lead → Database → Type 0
IsClosedAs business id l d = (get business id d.leads ≡ some l) × (is_lost l.status ≡ true)

module _ (business id : Uuid) (lead : Lead) (own : lead.business_id ≡ business)
    (named : lead.id ≡ id) (reason : OpportunityLostReason) (operation_key : Key) (fresh : Uuid)
    (now : Instant) where
  saved_as_lost :
      Ensures
        (λ d. Unit {0})
        (save_in in_leads business (lost_as reason now lead))
        (IsClosedAs business id)
  saved_as_lost d p l e =
      let lost = lost_as reason now lead in
      let saved = save_in-own in_leads business lost d own in
      let here : (business == business && id == lost.id) ≡ true =
        rw (==_refl business, named) (==_refl id) in
      let there : get business id (put business lost d.leads) ≡ some lost =
        get-put business business id lost d.leads own ∙ rw here refl in
      subst (λ x. IsClosedAs business id x (save_in in_leads business lost d).1)
        (same (ap (λ r. r.0) (sym saved) ∙ e)) (rw saved (there, refl))

  module _ (closed : Lead) where
    abbrev Stays : Database → Type 0
    Stays = IsClosedAs business id closed

    abbrev Result : Lead → Database → Type 0
    Result = IsClosedAs business id

    abbrev OfLeads : List Lead → Type 0
    OfLeads leads = (get business id leads ≡ some closed) × (is_lost closed.status ≡ true)

    or_fail-Stays :
        (o : Option Conversation) → Ensures Stays (or_fail o DomainCode.not_found) (λ c d. Stays d)
    or_fail-Stays none d p c e = p
    or_fail-Stays (some x) d p c e = p

    end_lost-Stays :
        Ensures Stays (end_lost business lead reason operation_key fresh now closed) Result
    unfolding end_lost
    end_lost-Stays d p l e =
        Ensures-follow (λ c d. Stays d) Result _
          (or_fail (get business lead.conversation_id d.conversations) DomainCode.not_found d)
          (or_fail-Stays (get business lead.conversation_id d.conversations) d p)
          (λ c d p l e.
            Ensures-follow (λ x d. Stays d) Result _
              (save_in in_conversations business
                (closed_conversation ConversationStage.closed_lost now c) d)
              (λ x k.
                conversation_kept OfLeads business
                  (closed_conversation ConversationStage.closed_lost now c) d p)
              (λ x d p l e.
                Ensures-follow (λ y d. Stays d) Result _
                  (note_lost business lead reason operation_key fresh now d)
                  (λ y k. activity_kept OfLeads _ fresh now d p)
                  (λ y d p l e. subst (λ z. IsClosedAs business id z d) (same e) p) l e)
              l e)
          l e

  close_open-IsClosedAs :
      Ensures
        (λ d. Unit {0})
        (close_open business lead reason operation_key fresh now)
        (IsClosedAs business id)
  unfolding close_open
  close_open-IsClosedAs d p l e =
      Ensures-follow (λ u d. Unit) (IsClosedAs business id) _
        (clear_pending_actions business lead now d) (λ u k. tt)
        (λ u d p l e.
          Ensures-follow (IsClosedAs business id) (IsClosedAs business id) _
            (save_in in_leads business (lost_as reason now lead) _) (saved_as_lost _ tt)
            end_lost-Stays l e)
        l e

close_found-IsClosedAs :
    (business id : Uuid) (reason : OpportunityLostReason) (operation_key : Key) (fresh : Uuid)
    (now : Instant) (d : Database) (l : Lead) (o : Option Lead)
    → get business id d.leads ≡ o
    → (close_found business reason operation_key fresh now o d).0 ≡ passed l
    → IsClosedAs business id l (close_found business reason operation_key fresh now o d).1
unfolding get
close_found-IsClosedAs business id reason operation_key fresh now d l none e h = absurd (no_pass h)
close_found-IsClosedAs business id reason operation_key fresh now d l (some lead) e h =
    elim (Bool-cases (is_lost lead.status)) [
      | inl lost ↦ elim (Bool-cases (has_reason reason lead.lost_reason)) [
        | inl t ↦
            rw (lost, t)
              (subst (λ z. IsClosedAs business id z d) (same (rw (lost, t) at h)) (e, lost))
        | inr t ↦ absurd (no_pass (rw (lost, t) at h))
      ]
      | inr not_lost ↦ elim (Bool-cases (is_won lead.status)) [
        | inl t ↦ absurd (no_pass (rw (not_lost, t) at h))
        | inr t ↦
            let row = find?-holds (is_row business id) d.leads lead e in
            rw (not_lost, t)
              (close_open-IsClosedAs business id lead (ground (arith, row)) (ground (arith, row))
                reason operation_key fresh now d tt l (rw (not_lost, t) at h))
      ]
    ]

-- A lead that is closed as lost is found as such: whatever lead `closeOpportunityLost` returns, for a
-- first call or a repeated one, is afterwards what `get` finds under its id, and is lost.
pub close_opportunity_lost-found :
    (business id : Uuid) (reason : OpportunityLostReason) (operation_key : Key) (fresh : Uuid)
    (now : Instant) (d : Database) (l : Lead)
    → (close_opportunity_lost business id reason operation_key fresh now d).0 ≡ passed l
    → let d' = (close_opportunity_lost business id reason operation_key fresh now d).1 in
      (get business id d'.leads ≡ some l) × (is_lost l.status ≡ true)
unfolding close_opportunity_lost
close_opportunity_lost-found business id reason operation_key fresh now d l h =
    close_found-IsClosedAs business id reason operation_key fresh now d l (get business id d.leads)
      refl h
