-- ===== src/Client/Reconcile.antt =====
-- How `CloserService` (src/application/CloserService.ts) keeps a lead up to date with its work:
-- `tryScheduleFollowUp`, `reconcileOpportunity` and `reopenOpportunity`. The ids that a call draws are
-- values of `fresh` at distinct places; `id_text` and `amount_text` write an id and an amount as text.
use Prim.Native.String.{◌++◌ as joined}
use closer_v.Prelude.{ℕ, Bool, true, false, ◌&&◌, ◌||◌, Option, none, some, if◌then◌else◌}
use closer_v.Domain.Values.{Uuid, Key, Instant, Cents}
use closer_v.Client.Kinds.{
  ActivityType, ConversationMode, ConversationStage, ConversationState, FollowUpStopReason,
  LeadStatus,
}
use closer_v.Client.Entities.{Conversation, Lead, ScheduledFollowUp}
use closer_v.Client.Rules.{DomainCode, Checked, passed, refused}
use closer_v.Client.Repository.{get}
use closer_v.Client.Database.{
  Database, Work, done, fail, reads, changes, or_fail, save_in, in_leads, in_conversations,
  lead_entity, conversation_entity, next_action_entity, ◌>>=◌, ◌>>◌,
}
use closer_v.Client.FollowUps.Schedule.{schedule_for_stage}
use closer_v.Client.FollowUps.Progress.{cancel_pending}
use closer_v.Client.Journey.View.{
  CommercialOpportunityView, JourneyActionRecommendation, JourneyReconciliation,
}
use closer_v.Client.Journey.Stages.{is_lost}
use closer_v.Client.Journey.Actions.{is_awaiting_balance}
use closer_v.Client.Journey.Evaluate.{evaluate}
use closer_v.Client.Leads.{touched, note_activity, clear_pending_actions, close_won, is_won}
use closer_v.Client.NextActions.{asks, replace_next_action}

-- The codes of a follow-up that may not be.
abbrev pub is_expected : DomainCode → Bool
is_expected DomainCode.follow_up_blocked = true
is_expected DomainCode.follow_up_not_required = true
is_expected DomainCode.follow_up_cadence_missing = true
is_expected DomainCode.marketing_blocked = true
is_expected DomainCode.operational_blocked = true
is_expected _ = false

abbrev pub swallow : Checked ScheduledFollowUp × Database → Checked (Unit {0}) × Database
swallow (passed f, d) = (passed tt, d)
swallow (refused e, d) = (if is_expected e then passed tt else refused e, d)

abbrev pub try_schedule_follow_up :
    (Uuid → Key) → Uuid → Uuid → ConversationStage → Uuid → Instant → Work (Unit {0})
try_schedule_follow_up id_text business conversation stage fresh now d =
    swallow (schedule_for_stage id_text business conversation stage none fresh now d)

abbrev pub conversation_state_for_stage : ConversationStage → ConversationState
conversation_state_for_stage ConversationStage.new_inquiry = ConversationState.new_inquiry
conversation_state_for_stage ConversationStage.discovery = ConversationState.qualifying
conversation_state_for_stage ConversationStage.qualification = ConversationState.qualifying
conversation_state_for_stage ConversationStage.information_collection = ConversationState.qualifying
conversation_state_for_stage ConversationStage.human_review = ConversationState.qualifying
conversation_state_for_stage ConversationStage.ready_to_book = ConversationState.ready_to_book
conversation_state_for_stage ConversationStage.appointment_proposed =
    ConversationState.ready_to_book
conversation_state_for_stage ConversationStage.awaiting_deposit =
    ConversationState.appointment_scheduled
conversation_state_for_stage ConversationStage.awaiting_confirmation =
    ConversationState.appointment_scheduled
conversation_state_for_stage ConversationStage.booked = ConversationState.appointment_scheduled
conversation_state_for_stage ConversationStage.ready_for_quote = ConversationState.quote_in_progress
conversation_state_for_stage ConversationStage.quote_preparation =
    ConversationState.quote_in_progress
conversation_state_for_stage ConversationStage.quote_sent = ConversationState.quote_sent
conversation_state_for_stage ConversationStage.job_scheduled = ConversationState.job_scheduled
conversation_state_for_stage ConversationStage.service_complete = ConversationState.awaiting_payment
conversation_state_for_stage ConversationStage.awaiting_balance = ConversationState.awaiting_payment
conversation_state_for_stage _ = ConversationState.complete

abbrev pub is_new : LeadStatus → Bool
is_new LeadStatus.new = true
is_new _ = false

-- `reopensAfterRefund`
abbrev pub reopens : Lead → CommercialOpportunityView → Bool
reopens lead o = is_won lead.status && is_awaiting_balance o.stage

abbrev pub reconciled_lead : Bool → Instant → Lead → Lead
reconciled_lead reopened now lead = record lead {
  base = touched now lead.base;
  status = if is_new lead.status || reopened then LeadStatus.active else lead.status;
  closed_at = if reopened then none else lead.closed_at;
}

abbrev pub reconciled_conversation :
    Bool → ConversationStage → Instant → Conversation → Conversation
reconciled_conversation reopened stage now c = record c {
  base = touched now c.base;
  inferred_stage = stage;
  state = conversation_state_for_stage stage;
  mode = if reopened then ConversationMode.ai_active else c.mode;
  automation_enabled = if reopened then true else c.automation_enabled;
}

module _ (id_text : Uuid → Key) (amount_text : Option Cents → Key) where
  abbrev pub note_reopened :
      Bool → Uuid → Lead → CommercialOpportunityView → (ℕ → Uuid) → Instant → Work (Unit {0})
  note_reopened false business lead o fresh now = done tt
  note_reopened true business lead o fresh now =
      note_activity business lead ActivityType.opportunity_reopened
        "Refund created an outstanding balance; opportunity reopened."
        (joined (id_text lead.id)
          (joined ":reopen:refund:" (amount_text o.remaining_balance_cents)))
        (fresh 2) now
      >>= λ _.
          try_schedule_follow_up id_text business lead.conversation_id
            ConversationStage.awaiting_balance (fresh 3) now

  abbrev pub take_action :
      Uuid → Lead → Option JourneyActionRecommendation → (ℕ → Uuid) → Instant → Work (Unit {0})
  take_action business lead none fresh now = done tt
  take_action business lead (some r) fresh now =
      replace_next_action business lead.conversation_id r fresh now >>= λ _. done tt

  abbrev pub stay_lost : Uuid → Lead → Instant → Work (Unit {0})
  stay_lost business lead now = do
    changes (
        cancel_pending business lead.conversation_id FollowUpStopReason.opportunity_closed false
          now)
    clear_pending_actions business lead now

  -- What is done for the lead before it is evaluated again.
  unfoldable pub reconcile_lead :
      Uuid → Lead → Conversation → JourneyReconciliation → (ℕ → Uuid) → Instant → Work (Unit {0})
  reconcile_lead business lead c result fresh now =
      let reopened = reopens lead result.opportunity in
      if result.should_remain_closed_lost
      then stay_lost business lead now
      else if result.should_close_won
      then close_won id_text business lead c (fresh 4) now
      else do
        save_in in_leads business (reconciled_lead reopened now lead)
        save_in in_conversations business
            (reconciled_conversation reopened result.opportunity.stage now c)
        note_reopened reopened business lead result.opportunity fresh now
        take_action business lead result.recommended fresh now

  unfoldable pub reconcile_opportunity :
      Uuid → Uuid → (ℕ → Uuid) → Instant → Work CommercialOpportunityView
  reconcile_opportunity business id fresh now = do
    result ← asks (evaluate business id)
    found ← reads (λ d. get business id d.leads)
    lead ← or_fail found DomainCode.not_found
    talk ← reads (λ d. get business lead.conversation_id d.conversations)
    c ← or_fail talk DomainCode.not_found
    reconcile_lead business lead c result fresh now
    after ← asks (evaluate business id)
    done after.opportunity

  abbrev pub reopened_lead : Instant → Lead → Lead
  reopened_lead now lead = record lead {
    base = touched now lead.base;
    status = LeadStatus.active;
    lost_reason = none;
    closed_at = none;
  }

  abbrev pub reopened_conversation : Instant → Conversation → Conversation
  reopened_conversation now c = record c {
    base = touched now c.base;
    state = ConversationState.qualifying;
    inferred_stage = ConversationStage.discovery;
    mode = ConversationMode.ai_active;
    automation_enabled = true;
  }

  unfoldable pub reopen_lead : Uuid → Lead → Key → (ℕ → Uuid) → Instant → Work Lead
  reopen_lead business lead operation_key fresh now = do
    talk ← reads (λ d. get business lead.conversation_id d.conversations)
    c ← or_fail talk DomainCode.not_found
    save_in in_leads business (reopened_lead now lead)
    save_in in_conversations business (reopened_conversation now c)
    note_activity business lead ActivityType.opportunity_reopened
        "Customer returned; opportunity reopened." operation_key (fresh 5) now
    reconcile_opportunity business lead.id fresh now
    found ← reads (λ d. get business lead.id d.leads)
    or_fail found DomainCode.not_found

  abbrev pub reopen_found : Uuid → Key → (ℕ → Uuid) → Instant → Option Lead → Work Lead
  reopen_found business operation_key fresh now none = fail DomainCode.not_found
  reopen_found business operation_key fresh now (some lead) =
      if is_lost lead.status then reopen_lead business lead operation_key fresh now else done lead

  unfoldable pub reopen_opportunity : Uuid → Uuid → Key → (ℕ → Uuid) → Instant → Work Lead
  reopen_opportunity business id operation_key fresh now d =
      reopen_found business operation_key fresh now (get business id d.leads) d
