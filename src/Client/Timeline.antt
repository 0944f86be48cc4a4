-- ===== src/Client/Timeline.antt =====
-- `ActivityTimelineService` of src/application/commercial/ActivityTimelineService.ts. The order of two
-- ids, by which activities of one time are listed, is `id_before`.
pub mod Unique
use text.Mathlib.Text.{◌==◌ as str_eq}
use closer_v.Prelude.{
  ℕ, Bool, true, false, not, ◌&&◌, ◌||◌, ◌==◌, ltb, Option, none, some, List, [], ◌∷◌, head?,
  sort_by, String, if◌then◌else◌,
}
use closer_v.Domain.Values.{Uuid, Key, Instant}
use closer_v.Store.Lookup.{same_id}
use closer_v.Client.Kinds.{ActivityType}
use closer_v.Client.Entities.{TenantEntity, Activity, Scalar}
use closer_v.Client.Rules.{DomainCode, Checked, passed, refused}
use closer_v.Client.Repository.{find_all}
use closer_v.Client.Database.{Database, Work, done, fail, save_in, in_activities, activity_entity}
use closer_v.Client.Text.{is_empty_text, has_text}

pub record RecordActivityInput : Type 0 where
  pub business_id : Uuid
  pub contact_id : Option Uuid
  pub conversation_id : Option Uuid
  pub kind_ : ActivityType
  pub summary : String
  pub metadata : Option (List (String × Option Scalar))
  pub operation_key : Option Key

-- The place of a type in the enumeration, which tells types apart.
abbrev pub type_place : ActivityType → ℕ
type_place ActivityType.lead_created = 0
type_place ActivityType.message_received = 1
type_place ActivityType.message_sent = 2
type_place ActivityType.next_action_changed = 3
type_place ActivityType.handoff_started = 4
type_place ActivityType.assistant_resumed = 5
type_place ActivityType.consent_changed = 6
type_place ActivityType.appointment_changed = 7
type_place ActivityType.quote_changed = 8
type_place ActivityType.job_changed = 9
type_place ActivityType.payment_changed = 10
type_place ActivityType.memory_changed = 11
type_place ActivityType.follow_up_scheduled = 12
type_place ActivityType.follow_up_cancelled = 13
type_place ActivityType.assistant_tool_requested = 14
type_place ActivityType.appointment_created = 15
type_place ActivityType.appointment_rescheduled = 16
type_place ActivityType.appointment_confirmed = 17
type_place ActivityType.appointment_completed = 18
type_place ActivityType.appointment_cancelled = 19
type_place ActivityType.quote_created = 20
type_place ActivityType.quote_sent = 21
type_place ActivityType.quote_accepted = 22
type_place ActivityType.quote_declined = 23
type_place ActivityType.quote_expired = 24
type_place ActivityType.job_created = 25
type_place ActivityType.job_scheduled = 26
type_place ActivityType.job_rescheduled = 27
type_place ActivityType.job_completed = 28
type_place ActivityType.job_cancelled = 29
type_place ActivityType.deposit_collected = 30
type_place ActivityType.balance_collected = 31
type_place ActivityType.refund_recorded = 32
type_place ActivityType.opportunity_won = 33
type_place ActivityType.opportunity_lost = 34
type_place ActivityType.opportunity_reopened = 35
type_place ActivityType.revenue_attribution_verified = 36
type_place ActivityType.reactivation_prepared = 37
type_place ActivityType.owner_tool_executed = 38

abbrev pub is_same_activity : RecordActivityInput → Activity → Bool
is_same_activity input a =
    type_place a.kind_ == type_place input.kind_
    && same_id a.contact_id input.contact_id
    && same_id a.conversation_id input.conversation_id

abbrev pub metadata_of : Option (List (String × Option Scalar)) → List (String × Option Scalar)
metadata_of none = []
metadata_of (some m) = m

abbrev pub new_activity : RecordActivityInput → Uuid → Instant → Activity
new_activity input fresh now = record {
  base = record { id = fresh; business_id = input.business_id; created_at = now; updated_at = now };
  contact_id = input.contact_id;
  conversation_id = input.conversation_id;
  kind_ = input.kind_;
  summary = input.summary;
  metadata = metadata_of input.metadata;
  occurred_at = now;
  operation_key = input.operation_key;
}

-- The activity of an operation key; no key and the empty one find none.
abbrev pub existing_activity : Uuid → Option Key → Database → Option Activity
existing_activity business none d = none
existing_activity business (some key) d =
    if is_empty_text key
    then none
    else head? (find_all business (λ a. has_text key a.operation_key) d.activities)

abbrev pub replay_or_save : RecordActivityInput → Uuid → Instant → Option Activity → Work Activity
replay_or_save input fresh now (some existing) d =
    if is_same_activity input existing
    then done existing d
    else fail DomainCode.idempotency_conflict d
replay_or_save input fresh now none d =
    save_in in_activities input.business_id (new_activity input fresh now) d

unfoldable pub record_activity : RecordActivityInput → Uuid → Instant → Work Activity
record_activity input fresh now d =
    replay_or_save input fresh now (existing_activity input.business_id input.operation_key d) d

abbrev pub is_of_contact : Uuid → Activity → Bool
is_of_contact contact a = same_id a.contact_id (some contact)

abbrev pub happened_before : (Uuid → Uuid → Bool) → Activity → Activity → Bool
happened_before id_before a b =
    ltb a.occurred_at b.occurred_at || a.occurred_at == b.occurred_at && id_before a.id b.id

unfoldable pub list_activities : (Uuid → Uuid → Bool) → Uuid → Uuid → Database → List Activity
list_activities id_before business contact d =
    sort_by (happened_before id_before) (find_all business (is_of_contact contact) d.activities)
