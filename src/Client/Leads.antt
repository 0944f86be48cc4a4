-- ===== src/Client/Leads.antt =====
-- How `CloserService` (src/application/CloserService.ts) closes a lead: `clearPendingActions`,
-- `closeWon`, `closeOpportunityLost`, and the activity that it records. `fresh` is the id of the
-- activity, and `id_text` writes an id as text.
pub mod Closed
use Prim.Native.String.{◌++◌ as joined}
use closer_v.Prelude.{
  ℕ, Bool, true, false, not, ◌&&◌, ◌||◌, ◌==◌, Option, none, some, List, [], ◌∷◌, select,
  if◌then◌else◌, String,
}
use closer_v.Domain.Values.{Uuid, Key, Instant}
use closer_v.Client.Kinds.{
  ActivityType, ConversationMode, ConversationStage, ConversationState, FollowUpStopReason,
  LeadStatus, NextActionStatus, OpportunityLostReason,
}
use closer_v.Client.Entities.{TenantEntity, Activity, Conversation, Lead, NextAction, Scalar}
use closer_v.Client.Rules.{DomainCode, Checked, passed, refused, is_pending_action}
use closer_v.Client.Repository.{get, find_all}
use closer_v.Client.Text.{is_empty_text}
use closer_v.Client.Database.{
  Database, Work, done, fail, reads, changes, or_fail, save_in, in_leads, in_conversations,
  in_next_actions, lead_entity, conversation_entity, next_action_entity, ◌>>=◌, ◌>>◌,
}
use closer_v.Client.Journey.Stages.{is_lost}
use closer_v.Client.FollowUps.Progress.{cancel_pending}
use closer_v.Client.Timeline.{RecordActivityInput, record_activity}

abbrev pub touched : Instant → TenantEntity → TenantEntity
touched now base = record base { updated_at = now }

-- `this.activity(...)`
abbrev pub note_activity :
    Uuid → Lead → ActivityType → String → Key → Uuid → Instant → Work Activity
note_activity business lead kind summary key fresh now =
    record_activity
      record {
        business_id = business;
        contact_id = some lead.contact_id;
        conversation_id = some lead.conversation_id;
        kind_ = kind;
        summary = summary;
        metadata = some [];
        operation_key = if is_empty_text key then none else some key;
      }
      fresh now

abbrev pub finish_action : Instant → NextAction → NextAction
finish_action now a = record a { base = touched now a.base; status = NextActionStatus.completed }

-- The saves of the `forEach` over the pending actions.
unfoldable pub save_actions : Uuid → (NextAction → NextAction) → List NextAction → Work (Unit {0})
save_actions business write [] = done tt
save_actions business write (a ∷ rest) =
    save_in in_next_actions business (write a) >>= λ _. save_actions business write rest

abbrev pub release_conversation : Uuid → Instant → Option Conversation → Work (Unit {0})
release_conversation business now none = done tt
release_conversation business now (some c) =
    save_in in_conversations business
      (record c { base = touched now c.base; next_action_id = none })
    >>= λ _. done tt

abbrev pub pending_actions : Uuid → Lead → Database → List NextAction
pending_actions business lead d =
    find_all business (λ a. a.lead_id == lead.id && is_pending_action a.status) d.next_actions

unfoldable pub clear_pending_actions : Uuid → Lead → Instant → Work (Unit {0})
unfolding save_actions save_in
clear_pending_actions business lead now = do
  pending ← reads (pending_actions business lead)
  save_actions business (finish_action now) pending
  conversation ← reads (λ d. get business lead.conversation_id d.conversations)
  save_in in_leads business (record lead { base = touched now lead.base; next_action_id = none })
  release_conversation business now conversation

abbrev pub closed_conversation : ConversationStage → Instant → Conversation → Conversation
closed_conversation stage now c = record c {
  base = touched now c.base;
  state = ConversationState.complete;
  inferred_stage = stage;
  mode = ConversationMode.closed;
  automation_enabled = false;
  next_action_id = none;
}

abbrev pub won_lead : Instant → Lead → Lead
won_lead now lead = record lead {
  base = touched now lead.base;
  status = LeadStatus.won;
  lost_reason = none;
  next_action_id = none;
  closed_at = some now;
}

abbrev pub is_won : LeadStatus → Bool
is_won LeadStatus.won = true
is_won _ = false

module _ (id_text : Uuid → Key) where
  unfoldable pub close_won : Uuid → Lead → Conversation → Uuid → Instant → Work (Unit {0})
  unfolding clear_pending_actions
  close_won business lead c fresh now = if is_won lead.status then done tt else do
    clear_pending_actions business lead now
    changes (
        cancel_pending business lead.conversation_id FollowUpStopReason.opportunity_closed false
          now)
    found ← reads (λ d. get business lead.id d.leads)
    current ← or_fail found DomainCode.not_found
    save_in in_leads business (won_lead now current)
    save_in in_conversations business (closed_conversation ConversationStage.closed_won now c)
    note_activity business lead ActivityType.opportunity_won "Opportunity closed won."
        (joined (id_text lead.id) ":won") fresh now
    done tt

-- The words of a reason: in lower case, with spaces.
abbrev pub reason_words : OpportunityLostReason → String
reason_words OpportunityLostReason.customer_declined = "customer declined"
reason_words OpportunityLostReason.cancelled = "cancelled"
reason_words OpportunityLostReason.outside_service_area = "outside service area"
reason_words OpportunityLostReason.no_longer_interested = "no longer interested"
reason_words OpportunityLostReason.quote_expired = "quote expired"
reason_words OpportunityLostReason.unavailable = "unavailable"

abbrev pub same_reason : OpportunityLostReason → OpportunityLostReason → Bool
same_reason OpportunityLostReason.customer_declined OpportunityLostReason.customer_declined = true
same_reason OpportunityLostReason.cancelled OpportunityLostReason.cancelled = true
same_reason OpportunityLostReason.outside_service_area OpportunityLostReason.outside_service_area =
    true
same_reason OpportunityLostReason.no_longer_interested OpportunityLostReason.no_longer_interested =
    true
same_reason OpportunityLostReason.quote_expired OpportunityLostReason.quote_expired = true
same_reason OpportunityLostReason.unavailable OpportunityLostReason.unavailable = true
same_reason _ _ = false

abbrev pub has_reason : OpportunityLostReason → Option OpportunityLostReason → Bool
has_reason reason none = false
has_reason reason (some r) = same_reason r reason

abbrev pub lost_as : OpportunityLostReason → Instant → Lead → Lead
lost_as reason now lead = record lead {
  base = touched now lead.base;
  status = LeadStatus.lost;
  lost_reason = some reason;
  next_action_id = none;
  closed_at = some now;
}

abbrev pub note_lost : Uuid → Lead → OpportunityLostReason → Key → Uuid → Instant → Work Activity
note_lost business lead reason operation_key fresh now =
    note_activity business lead ActivityType.opportunity_lost
      (joined "Opportunity closed: " (joined (reason_words reason) ".")) operation_key fresh now

-- The end of the call, after the lead is saved: the conversation is closed and the activity recorded.
unfoldable pub end_lost :
    Uuid → Lead → OpportunityLostReason → Key → Uuid → Instant → Lead → Work Lead
end_lost business lead reason operation_key fresh now closed = do
  found ← reads (λ d. get business lead.conversation_id d.conversations)
  c ← or_fail found DomainCode.not_found
  save_in in_conversations business (closed_conversation ConversationStage.closed_lost now c)
  note_lost business lead reason operation_key fresh now
  done closed

-- The call for a lead that is neither lost nor won.
unfoldable pub close_open : Uuid → Lead → OpportunityLostReason → Key → Uuid → Instant → Work Lead
close_open business lead reason operation_key fresh now = do
  clear_pending_actions business lead now
  changes
      (cancel_pending business lead.conversation_id FollowUpStopReason.opportunity_closed false now)
  closed ← save_in in_leads business (lost_as reason now lead)
  end_lost business lead reason operation_key fresh now closed

abbrev pub close_found :
    Uuid → OpportunityLostReason → Key → Uuid → Instant → Option Lead → Work Lead
close_found business reason operation_key fresh now none = fail DomainCode.not_found
close_found business reason operation_key fresh now (some lead) =
    if is_lost lead.status
    then (if has_reason reason lead.lost_reason
        then done lead
        else fail DomainCode.idempotency_conflict)
    else if is_won lead.status
    then fail DomainCode.invalid_lead_state
    else close_open business lead reason operation_key fresh now

unfoldable pub close_opportunity_lost :
    Uuid → Uuid → OpportunityLostReason → Key → Uuid → Instant → Work Lead
close_opportunity_lost business id reason operation_key fresh now d =
    close_found business reason operation_key fresh now (get business id d.leads) d
