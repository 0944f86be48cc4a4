-- ===== src/Client/FollowUps/Schedule.antt =====
-- The creation of follow-ups: `schedule` and its callers in
-- src/application/conversation/FollowUpService.ts. A method takes the fresh id and the time;
-- `id_text` writes an id as text.
use Prim.Native.String.{◌++◌ as joined}
use closer_v.Prelude.{
  ◌+◌, ◌*◌, Bool, true, false, not, ◌&&◌, ◌==◌, Option, none, some, [], head?, String,
  if◌then◌else◌,
}
use closer_v.Domain.Values.{Uuid, Key, Instant}
use closer_v.Client.Kinds.{
  ConversationChannel, ConversationMode, ConversationStage, ConversationState, FollowUpChannel,
  FollowUpOwner, FollowUpResult, FollowUpScenario, FollowUpStatus, MessagePurpose, NextActionType,
}
use closer_v.Client.Entities.{ConsentRecord, Conversation, NextAction, ScheduledFollowUp}
use closer_v.Client.Rules.{DomainCode, Checked, passed, refused, check, ◌>>=◌}
use closer_v.Client.Repository.{get, list, find_all}
use closer_v.Client.Database.{
  Database, Work, done, fail, save_in, in_scheduled_follow_ups, business_settings_entity,
  conversation_entity, consent_record_entity, next_action_entity, scheduled_follow_up_entity,
}
use closer_v.Client.Text.{trim, is_blank}
use closer_v.Client.Stage.{is_scheduled}
use closer_v.Client.FollowUps.Scenario.{
  InternalReasonCode, same_scenario, scenario_text, cadence_at, scenario_for_stage,
  scenario_for_decision, follow_up_reason,
}

pub record ScheduleFollowUpInput : Type 0 where
  pub business_id : Uuid
  pub conversation_id : Uuid
  pub scenario : FollowUpScenario
  pub due_at : Instant
  pub purpose : Option MessagePurpose
  pub triggering_message_id : Option Key
  pub reason : String
  pub draft_message : Option String

abbrev pub is_ai_led : ConversationMode → Bool
is_ai_led ConversationMode.ai_active = true
is_ai_led _ = false

abbrev pub is_complete : ConversationState → Bool
is_complete ConversationState.complete = true
is_complete _ = false

abbrev pub is_human_review : Option NextAction → Bool
is_human_review none = false
is_human_review (some a) = elim a.kind_ [ NextActionType.human_review ↦ true | _ ↦ false ]

abbrev pub current_action : Uuid → Conversation → Database → Option NextAction
current_action business c d = elim c.next_action_id [
  | none ↦ none
  | some id ↦ get business id d.next_actions
]

-- Whether a follow-up with the purpose may go to a contact with the consent: the codes of the two
-- refusals.
abbrev pub check_consent : MessagePurpose → Option ConsentRecord → Checked (Unit {0})
check_consent MessagePurpose.marketing none = refused DomainCode.marketing_blocked
check_consent MessagePurpose.marketing (some consent) =
    check (consent.marketing_allowed && not consent.opted_out) DomainCode.marketing_blocked
check_consent MessagePurpose.operational none = passed tt
check_consent MessagePurpose.operational (some consent) =
    check consent.operational_allowed DomainCode.operational_blocked

abbrev pub purpose_of : Option MessagePurpose → MessagePurpose
purpose_of none = MessagePurpose.operational
purpose_of (some p) = p

abbrev pub consent_of : Uuid → Conversation → Database → Option ConsentRecord
consent_of business c d =
    head? (find_all business (λ r. r.contact_id == c.contact_id) d.consent_records)

abbrev pub required {ℓ} : {A : Type ℓ} → Option A → Checked A
required none = refused DomainCode.not_found
required (some a) = passed a

-- The conversation to follow up on, past the checks of `schedule`.
unfoldable pub check_schedule : ScheduleFollowUpInput → Database → Checked Conversation
check_schedule input d =
    required (get input.business_id input.conversation_id d.conversations) >>= λ c.
    check (is_ai_led c.mode && not (is_complete c.state)) DomainCode.follow_up_blocked >>= λ _.
    check (not (is_human_review (current_action input.business_id c d)))
      DomainCode.follow_up_blocked
    >>= λ _. check_consent (purpose_of input.purpose) (consent_of input.business_id c d) >>= λ _.
        passed c

abbrev pub is_same_follow_up : Uuid → FollowUpScenario → ScheduledFollowUp → Bool
is_same_follow_up conversation scenario f =
    f.conversation_id == conversation && same_scenario f.scenario scenario && is_scheduled f.status

abbrev pub channel_of : ConversationChannel → FollowUpChannel
channel_of ConversationChannel.whats_app = FollowUpChannel.whats_app
channel_of ConversationChannel.instagram = FollowUpChannel.instagram
channel_of ConversationChannel.email = FollowUpChannel.email
channel_of _ = FollowUpChannel.manual

-- `input.draftMessage?.trim() || null`
abbrev pub draft_of : Option String → Option String
draft_of none = none
draft_of (some s) = if is_blank s then none else some (trim s)

abbrev pub trigger_text : Option Key → Key
trigger_text none = "state"
trigger_text (some k) = k

-- The delay of a step of a scenario's cadence.
abbrev pub configured_due_at : Uuid → FollowUpScenario → Instant → Database → Checked Instant
configured_due_at business scenario now d =
    required (head? (list business d.business_settings)) >>= λ settings.
    elim (cadence_at scenario 0 settings.follow_up_cadence_hours) [
      | none ↦ refused DomainCode.follow_up_cadence_missing
      | some hours ↦ passed (now + hours * 3600000)
    ]

abbrev pub as_some :
    Checked ScheduledFollowUp × Database → Checked (Option ScheduledFollowUp) × Database
as_some (passed f, d) = (passed (some f), d)
as_some (refused e, d) = (refused e, d)

module _ (id_text : Uuid → Key) where
  abbrev pub key_of : ScheduleFollowUpInput → Key
  key_of input = joined (id_text input.conversation_id) (
      joined ":" (
        joined (scenario_text input.scenario)
          (joined ":" (trigger_text input.triggering_message_id))))

  abbrev pub new_scheduled :
      ScheduleFollowUpInput → Conversation → Uuid → Instant → ScheduledFollowUp
  new_scheduled input c fresh now = record {
    base = record {
      id = fresh;
      business_id = input.business_id;
      created_at = now;
      updated_at = now;
    };
    contact_id = c.contact_id;
    conversation_id = input.conversation_id;
    scenario = input.scenario;
    status = FollowUpStatus.scheduled;
    purpose = purpose_of input.purpose;
    due_at = input.due_at;
    idempotency_key = key_of input;
    triggering_message_id = input.triggering_message_id;
    reason = input.reason;
    sequence_key = scenario_text input.scenario;
    sequence_step = 0;
    channel = channel_of c.channel;
    attempt_count = 0;
    attempts = [];
    next_attempt_at = some input.due_at;
    last_attempt_at = none;
    last_response_at = none;
    stop_reason = none;
    manual_override = false;
    owner = FollowUpOwner.assistant;
    owner_team_member_id = c.owner_team_member_id;
    draft_message = draft_of input.draft_message;
    result = FollowUpResult.pending;
  }

  abbrev pub keep_or_save :
      ScheduleFollowUpInput
      → Conversation
      → Uuid
      → Instant
      → Option ScheduledFollowUp
      → Work ScheduledFollowUp
  keep_or_save input c fresh now (some existing) = done existing
  keep_or_save input c fresh now none =
      save_in in_scheduled_follow_ups input.business_id (new_scheduled input c fresh now)

  abbrev pub schedule_checked :
      ScheduleFollowUpInput → Uuid → Instant → Checked Conversation → Work ScheduledFollowUp
  schedule_checked input fresh now (refused e) d = fail e d
  schedule_checked input fresh now (passed c) d =
      keep_or_save input c fresh now
        (head? (
          find_all input.business_id (is_same_follow_up input.conversation_id input.scenario)
            d.scheduled_follow_ups))
        d

  unfoldable pub schedule : ScheduleFollowUpInput → Uuid → Instant → Work ScheduledFollowUp
  schedule input fresh now d = schedule_checked input fresh now (check_schedule input d) d

  -- `schedule` for a due time that may not be known.
  abbrev pub schedule_at :
      Checked Instant → (Instant → ScheduleFollowUpInput) → Uuid → Instant → Work ScheduledFollowUp
  schedule_at (refused e) input fresh now = fail e
  schedule_at (passed due) input fresh now = schedule (input due) fresh now

  abbrev pub stage_due_at :
      Uuid → FollowUpScenario → Option Instant → Instant → Database → Checked Instant
  stage_due_at business scenario (some due) now d = passed due
  stage_due_at business scenario none now d = configured_due_at business scenario now d

  abbrev pub schedule_for_stage :
      Uuid → Uuid → ConversationStage → Option Instant → Uuid → Instant → Work ScheduledFollowUp
  schedule_for_stage business conversation stage due fresh now d = elim (scenario_for_stage stage) [
    | none ↦ fail DomainCode.follow_up_not_required d
    | some scenario ↦
        schedule_at (stage_due_at business scenario due now d)
          (λ at. record {
            business_id = business;
            conversation_id = conversation;
            scenario = scenario;
            due_at = at;
            purpose = none;
            triggering_message_id = none;
            reason = follow_up_reason scenario;
            draft_message = none;
          })
          fresh now d
  ]

  -- `scheduleForDecision`, of a decision that says whether to follow up, why, and at what stage.
  abbrev pub schedule_for_decision :
      Uuid
      → Conversation
      → Key
      → Bool
      → InternalReasonCode
      → ConversationStage
      → Uuid
      → Instant
      → Work (Option ScheduledFollowUp)
  schedule_for_decision business c message false reason stage fresh now d = done none d
  schedule_for_decision business c message true reason stage fresh now d =
      elim (scenario_for_decision reason stage) [
        | none ↦ done none d
        | some scenario ↦ as_some (
            schedule_at (configured_due_at business scenario now d)
              (λ at. record {
                business_id = business;
                conversation_id = c.id;
                scenario = scenario;
                due_at = at;
                purpose = some MessagePurpose.operational;
                triggering_message_id = some message;
                reason = follow_up_reason scenario;
                draft_message = none;
              })
              fresh now d)
      ]

  abbrev pub schedule_reactivation :
      Uuid → Uuid → Key → String → Uuid → Instant → Work ScheduledFollowUp
  schedule_reactivation business conversation operation_key draft fresh now d =
      schedule_at (configured_due_at business FollowUpScenario.reactivation now d)
        (λ at. record {
          business_id = business;
          conversation_id = conversation;
          scenario = FollowUpScenario.reactivation;
          due_at = at;
          purpose = some MessagePurpose.marketing;
          triggering_message_id = some operation_key;
          reason = follow_up_reason FollowUpScenario.reactivation;
          draft_message = some draft;
        })
        fresh now d
