-- ===== src/Store/State.antt =====
-- The fields of `class InMemoryProductionStore`, and its methods as actions: a method gets the
-- store, and returns or throws, with the store as it then is. What was written before a throw stays
-- written. Where the source draws a `randomUUID()` the action takes the fresh id as an argument.
-- A map or a set is a list: a key made of a tenant and an id stands as its two parts.
use closer_v.Prelude.{ℕ, Bool, Option, none, some, List, if◌then◌else◌, String}
use closer_v.Domain.Values.{Uuid, Key, Instant}
use closer_v.Domain.Opportunity.{OpportunityRecord, RecoveryActionRecord, RecoveryDecisionRecord}
use closer_v.Domain.Model.{
  MembershipEntry, CustomerRecord, LeadRecord, ConversationRecord, BookingRecord, PaymentRecord,
  RevenueLedgerEntry, FollowUpJobRecord, InMemoryInvitation, WebhookEndpoint, WebhookEventRecord,
}

-- An entry of `humanHandoffs`.
pub record Handoff : Type 0 where
  pub tenant_id : Uuid
  pub conversation_id : Uuid
  pub id : Uuid
  pub resolved_at : Option Instant

-- An entry of `customerResponses`.
pub record ResponseEntry : Type 0 where
  pub tenant_id : Uuid
  pub provider_message_id : Key
  pub message_id : Uuid
  pub opportunity_id : Uuid
  pub conversation_id : Uuid
  pub body : String

-- An entry of `optedOutCustomers`.
pub record OptedOut : Type 0 where
  pub tenant_id : Uuid
  pub customer_id : Uuid

pub record State : Type 0 where
  pub memberships : List MembershipEntry
  pub customers : List CustomerRecord
  pub leads : List LeadRecord
  pub conversations : List ConversationRecord
  pub bookings : List BookingRecord
  pub payments : List PaymentRecord
  pub revenue_entries : List RevenueLedgerEntry
  pub follow_ups : List FollowUpJobRecord
  pub webhook_endpoints : List WebhookEndpoint
  pub webhook_events : List WebhookEventRecord
  pub follow_up_attempts : List Key
  pub human_handoffs : List Handoff
  pub invitations : List InMemoryInvitation
  pub opportunities : List OpportunityRecord
  pub recovery_decisions : List RecoveryDecisionRecord
  pub recovery_actions : List RecoveryActionRecord
  pub opted_out_customers : List OptedOut
  pub customer_responses : List ResponseEntry

pub data ErrorCode : Type 0 where
  resource_not_found recovery_action_missing recovery_decision_missing
        recovery_action_not_approvable recovery_action_expired provider_message_conflict
        opportunity_contact_stopped invalid_opportunity_context idempotency_conflict
        invitation_not_found invitation_revoked invitation_already_used invitation_expired
        invitation_email_mismatch no_active_handoff invalid_journey_context invalid_booking_workflow
        booking_conflict invalid_payment_context invalid_payment_reference invalid_refund_reference
        refund_exceeds_payment revenue_causation_conflict duplicate_financial_event
        unverified_revenue unverified_refund unverified_collection invalid_follow_up_context
        follow_up_contact_blocked follow_up_automation_paused follow_up_lease_lost
        webhook_replay_conflict insufficient_role :
      ErrorCode

-- `new ApiError(status, code, message)`, without its message, or a plain `Error`.
pub data Failure : Type 0 where
  api_error : ℕ → ErrorCode → Failure
  internal_error : ErrorCode → Failure

pub data Result (A : Type 0) : Type 0 where
  ok : A → Result A
  err : Failure → Result A

abbrev pub Action : Type 0 → Type 0
Action A = State → Result A × State

module _ {A : Type 0} where
  abbrev pub pure : A → Action A
  pure a s = (ok a, s)

  abbrev pub throw : Failure → Action A
  throw e s = (err e, s)

  abbrev pub gets : (State → A) → Action A
  gets f s = (ok (f s), s)

  abbrev pub or_throw : Option A → Failure → Action A
  or_throw none e = throw e
  or_throw (some a) e = pure a

infixl 5 ◌>>=◌ ◌>>◌
abbrev pub ◌>>=◌ : {A B : Type 0} → Action A → (A → Action B) → Action B
◌>>=◌ m f s = let (r, s') = m s in elim r [ ok a ↦ f a s' | err e ↦ throw e s' ]

abbrev pub ◌>>◌ : {A B : Type 0} → Action A → Action B → Action B
m >> k = m >>= λ _. k

abbrev pub throw_if : Bool → Failure → Action (Unit {0})
throw_if test e s = (if test then err e else ok tt, s)

abbrev pub modify : (State → State) → Action (Unit {0})
modify f s = (ok tt, f s)
