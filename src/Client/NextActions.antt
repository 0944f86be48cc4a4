-- ===== src/Client/NextActions.antt =====
-- `replaceNextAction` of `CloserService` (src/application/CloserService.ts). The ids that a call draws
-- are values of `fresh` at distinct places.
use text.Mathlib.Text.{◌==◌ as str_eq}
use closer_v.Prelude.{
  ℕ, Bool, true, false, not, ◌&&◌, ◌==◌, Option, none, some, [], head?, if◌then◌else◌,
}
use closer_v.Domain.Values.{Uuid, Instant}
use closer_v.Store.Lookup.{same_id}
use closer_v.Client.Kinds.{ActivityType, NextActionStatus, NextActionType}
use closer_v.Client.Entities.{Conversation, Lead, NextAction}
use closer_v.Client.Rules.{DomainCode, Checked, refused, assert_next_action_invariant}
use closer_v.Client.Repository.{get, list, find_all}
use closer_v.Client.Database.{
  Database, Work, done, reads, or_fail, save_in, in_leads, in_conversations, in_next_actions,
  lead_entity, conversation_entity, next_action_entity, ◌>>=◌, ◌>>◌,
}
use closer_v.Client.Journey.View.{JourneyActionRecommendation}
use closer_v.Client.Timeline.{record_activity}
use closer_v.Client.Leads.{touched, save_actions, pending_actions}

-- The place of a type in the enumeration, which tells types apart.
abbrev pub action_place : NextActionType → ℕ
action_place NextActionType.reply_to_customer = 0
action_place NextActionType.answer_question = 1
action_place NextActionType.collect_information = 2
action_place NextActionType.request_photos = 3
action_place NextActionType.offer_appointment = 4
action_place NextActionType.confirm_appointment = 5
action_place NextActionType.follow_up_quote = 6
action_place NextActionType.follow_up_customer = 7
action_place NextActionType.prepare_quote = 8
action_place NextActionType.verify_service_area = 9
action_place NextActionType.review_payment_claim = 10
action_place NextActionType.request_deposit = 11
action_place NextActionType.schedule_job = 12
action_place NextActionType.collect_balance = 13
action_place NextActionType.human_review = 14
action_place NextActionType.future_reactivation = 15
action_place NextActionType.send_quote = 16
action_place NextActionType.service_scheduled = 17

abbrev pub same_flag : Bool → Bool → Bool
same_flag true b = b
same_flag false b = not b

abbrev pub is_recommended_as : JourneyActionRecommendation → NextAction → Bool
is_recommended_as r current =
    action_place current.kind_ == action_place r.action
    && str_eq current.reason r.reason
    && same_flag current.automatic r.automatic
    && same_id current.due_at r.due_at

abbrev pub cancel_action : Instant → NextAction → NextAction
cancel_action now a = record a { base = touched now a.base; status = NextActionStatus.cancelled }

abbrev pub new_action :
    Uuid → Uuid → Lead → JourneyActionRecommendation → Uuid → Instant → NextAction
new_action business conversation lead r fresh now = record {
  base = record { id = fresh; business_id = business; created_at = now; updated_at = now };
  lead_id = lead.id;
  conversation_id = conversation;
  kind_ = r.action;
  status = NextActionStatus.pending;
  reason = r.reason;
  due_at = r.due_at;
  automatic = r.automatic;
}

-- The invariant of the lead as it is found.
abbrev pub check_lead : Uuid → Uuid → Database → Checked (Unit {0})
check_lead business id d = elim (get business id d.leads) [
  | none ↦ refused DomainCode.not_found
  | some lead ↦ assert_next_action_invariant lead (list business d.next_actions)
]

abbrev pub asks : {A : Type 0} → (Database → Checked A) → Work A
asks f d = (f d, d)

-- The end of `replaceNextAction`, after the new action is saved.
unfoldable pub point_to_action :
    Uuid → Conversation → Lead → NextAction → Uuid → Instant → Work NextAction
point_to_action business c lead action fresh now = do
  save_in in_leads business
      (record lead { base = touched now lead.base; next_action_id = some action.id })
  save_in in_conversations business
      (record c { base = touched now c.base; next_action_id = some action.id })
  asks (check_lead business lead.id)
  record_activity
      record {
        business_id = business;
        contact_id = some c.contact_id;
        conversation_id = some action.conversation_id;
        kind_ = ActivityType.next_action_changed;
        summary = action.reason;
        metadata = some [];
        operation_key = none;
      }
      fresh now
  done action

unfoldable pub add_action :
    Uuid → Conversation → Lead → NextAction → Uuid → Instant → Work NextAction
add_action business c lead action fresh now = do
  pending ← reads (pending_actions business lead)
  save_actions business (cancel_action now) pending
  save_in in_next_actions business action
  point_to_action business c lead action fresh now

abbrev pub keep_or_add :
    Uuid
    → Conversation
    → Lead
    → JourneyActionRecommendation
    → (ℕ → Uuid)
    → Instant
    → Option NextAction
    → Work NextAction
keep_or_add business c lead r fresh now none =
    add_action business c lead (new_action business c.id lead r (fresh 0) now) (fresh 1) now
keep_or_add business c lead r fresh now (some current) =
    if is_recommended_as r current
    then done current
    else add_action business c lead (new_action business c.id lead r (fresh 0) now) (fresh 1) now

unfoldable pub replace_next_action :
    Uuid → Uuid → JourneyActionRecommendation → (ℕ → Uuid) → Instant → Work NextAction
replace_next_action business conversation r fresh now = do
  found ← reads (λ d. get business conversation d.conversations)
  c ← or_fail found DomainCode.not_found
  leads ← reads (λ d. find_all business (λ l. l.conversation_id == conversation) d.leads)
  lead ← or_fail (head? leads) DomainCode.not_found
  pending ← reads (pending_actions business lead)
  keep_or_add business c lead r fresh now (head? pending)
