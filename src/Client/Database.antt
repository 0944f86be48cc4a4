-- ===== src/Client/Database.antt =====
-- The collections of the database of the browser application (`DatabaseSchema` of
-- src/repositories/contracts.ts, without the records of the assistant's decisions, which no service
-- here reads), and the actions of the services on it.
use closer_v.Prelude.{true, false, ◌==◌, ◌≡◌, refl, ==_refl, List, Option, none, some}
use closer_v.Domain.Values.{Uuid}
use closer_v.Client.Entities.{
  Business, BusinessSettings, BusinessKnowledge, TeamMember, Contact, Lead, Conversation, Message,
  NextAction, Activity, Service, Appointment, AvailabilityRule, Quote, Job, Payment, ConsentRecord,
  HumanHandoff, RevenueEvent, CustomerMemoryItem, ScheduledFollowUp,
}
use closer_v.Client.Rules.{DomainCode, Checked, passed, refused}
use closer_v.Client.Repository.{Entity, business_of, put, save}

pub record Database : Type 0 where
  pub businesses : List Business
  pub business_settings : List BusinessSettings
  pub business_knowledge : List BusinessKnowledge
  pub team_members : List TeamMember
  pub contacts : List Contact
  pub leads : List Lead
  pub conversations : List Conversation
  pub messages : List Message
  pub next_actions : List NextAction
  pub activities : List Activity
  pub services : List Service
  pub appointments : List Appointment
  pub availability_rules : List AvailabilityRule
  pub quotes : List Quote
  pub jobs : List Job
  pub payments : List Payment
  pub consent_records : List ConsentRecord
  pub human_handoffs : List HumanHandoff
  pub revenue_events : List RevenueEvent
  pub customer_memory : List CustomerMemoryItem
  pub scheduled_follow_ups : List ScheduledFollowUp

instance abbrev pub business_settings_entity : Entity BusinessSettings
business_settings_entity = record { base_of = λ a. a.base }

instance abbrev pub lead_entity : Entity Lead
lead_entity = record { base_of = λ a. a.base }

instance abbrev pub conversation_entity : Entity Conversation
conversation_entity = record { base_of = λ a. a.base }

instance abbrev pub consent_record_entity : Entity ConsentRecord
consent_record_entity = record { base_of = λ a. a.base }

instance abbrev pub appointment_entity : Entity Appointment
appointment_entity = record { base_of = λ a. a.base }

instance abbrev pub quote_entity : Entity Quote
quote_entity = record { base_of = λ a. a.base }

instance abbrev pub job_entity : Entity Job
job_entity = record { base_of = λ a. a.base }

instance abbrev pub payment_entity : Entity Payment
payment_entity = record { base_of = λ a. a.base }

instance abbrev pub revenue_event_entity : Entity RevenueEvent
revenue_event_entity = record { base_of = λ a. a.base }

instance abbrev pub scheduled_follow_up_entity : Entity ScheduledFollowUp
scheduled_follow_up_entity = record { base_of = λ a. a.base }

instance abbrev pub next_action_entity : Entity NextAction
next_action_entity = record { base_of = λ a. a.base }

instance abbrev pub activity_entity : Entity Activity
activity_entity = record { base_of = λ a. a.base }

instance abbrev pub contact_entity : Entity Contact
contact_entity = record { base_of = λ a. a.base }

instance abbrev pub team_member_entity : Entity TeamMember
team_member_entity = record { base_of = λ a. a.base }

-- One collection of the database.
pub record Collection (A : Type 0) : Type 0 where
  pub rows : Database → List A
  pub set_rows : List A → Database → Database

abbrev pub in_revenue_events : Collection RevenueEvent
in_revenue_events = record {
  rows = λ d. d.revenue_events;
  set_rows = λ rows d. record d { revenue_events = rows };
}

abbrev pub in_scheduled_follow_ups : Collection ScheduledFollowUp
in_scheduled_follow_ups = record {
  rows = λ d. d.scheduled_follow_ups;
  set_rows = λ rows d. record d { scheduled_follow_ups = rows };
}

abbrev pub in_activities : Collection Activity
in_activities = record {
  rows = λ d. d.activities;
  set_rows = λ rows d. record d { activities = rows };
}

abbrev pub in_leads : Collection Lead
in_leads = record { rows = λ d. d.leads; set_rows = λ rows d. record d { leads = rows } }

abbrev pub in_conversations : Collection Conversation
in_conversations = record {
  rows = λ d. d.conversations;
  set_rows = λ rows d. record d { conversations = rows };
}

abbrev pub in_next_actions : Collection NextAction
in_next_actions = record {
  rows = λ d. d.next_actions;
  set_rows = λ rows d. record d { next_actions = rows };
}

-- A service's method: it returns or throws, with the database as it then is.
abbrev pub Work {ℓ} : Type ℓ → Type ℓ
Work A = Database → Checked A × Database

module _ {ℓ} {A : Type ℓ} where
  abbrev pub done : A → Work A
  done a d = (passed a, d)

  abbrev pub fail : DomainCode → Work A
  fail e d = (refused e, d)

abbrev pub follow : {A B : Type 0} → (A → Work B) → Checked A × Database → Checked B × Database
follow f (passed a, d) = f a d
follow f (refused e, d) = (refused e, d)

infixl 5 ◌>>=◌ ◌>>◌
abbrev pub ◌>>=◌ : {A B : Type 0} → Work A → (A → Work B) → Work B
◌>>=◌ m f d = follow f (m d)

abbrev pub ◌>>◌ : {A B : Type 0} → Work A → Work B → Work B
m >> k = m >>= λ _. k

abbrev pub reads : {A : Type 0} → (Database → A) → Work A
reads f d = (passed (f d), d)

abbrev pub changes : (Database → Database) → Work (Unit {0})
changes f d = (passed tt, f d)

abbrev pub or_fail : {A : Type 0} → Option A → DomainCode → Work A
or_fail none e = fail e
or_fail (some a) e = done a

module _ {A : Type 0} ⦃e : Entity A⦄ where
  abbrev pub keep_rows : Collection A → A → Database → Checked (List A) → Checked A × Database
  keep_rows c a d (passed rows) = (passed a, c.set_rows rows d)
  keep_rows c a d (refused e) = (refused e, d)

  -- `repositories.x.save(businessId, entity)`
  unfoldable pub save_in : Collection A → Uuid → A → Work A
  save_in c business a d = keep_rows c a d (save business a (c.rows d))

  -- An entity that is of the business is saved.
  pub save_in-own :
      (c : Collection A) (business : Uuid) (a : A) (d : Database)
      → business_of a ≡ business
      → save_in c business a d ≡ (passed a, c.set_rows (put business a (c.rows d)) d)
  unfolding save_in save
  save_in-own c business a d own =
      let same : (business_of a == business) ≡ true = rw own (==_refl business) in rw same refl

  -- An entity of another business is refused.
  pub save_in-other :
      (c : Collection A) (business : Uuid) (a : A) (d : Database)
      → (business_of a == business) ≡ false
      → (save_in c business a d).1 ≡ d
  unfolding save_in save
  save_in-other c business a d other = rw other refl
