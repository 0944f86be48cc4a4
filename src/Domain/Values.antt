-- ===== src/Domain/Values.antt =====
-- What the records are made of, and the enumerations of server/domain/opportunity.ts.
-- Ids are only compared: they are numbers. An `Instant` is a number of milliseconds, and stands for
-- the text that `toISOString` writes of it, whose order is the same. A `TimeText` is a time as a client
-- wrote it, which is compared as it stands. Keys and hashes are texts.
use Prim.Native.String.{compare}
use Prim.Native.Nat.{Ordering}
use closer_v.Prelude.{ℕ, String, Bool, true, false, not}

abbrev pub Uuid : Type 0
Uuid = ℕ

abbrev pub Key : Type 0
Key = String

abbrev pub TimeText : Type 0
TimeText = String

abbrev pub is_less : Ordering → Bool
is_less Ordering.lt = true
is_less _ = false

-- `<` of two texts.
abbrev pub text_before : TimeText → TimeText → Bool
text_before a b = is_less (compare a b)

-- `a <= b` of two texts.
abbrev pub is_reached : TimeText → TimeText → Bool
is_reached a b = not (text_before b a)

abbrev pub Instant : Type 0
Instant = ℕ

abbrev pub Cents : Type 0
Cents = ℕ

abbrev pub hour : ℕ
hour = 3600000

pub data OpportunityStatus : Type 0 where
  new contacting engaged qualified booked estimate won lost snoozed do_not_contact :
      OpportunityStatus

pub data RecoveryState : Type 0 where
  not_at_risk at_risk recovery_active waiting_for_customer human_required recovered failed stopped :
      RecoveryState

pub data HvacOpportunityType : Type 0 where
  emergency_repair standard_repair maintenance tune_up system_replacement installation
        indoor_air_quality duct_work commercial_service other :
      HvacOpportunityType

pub data OpportunitySource : Type 0 where
  missed_call phone website_form whatsapp instagram email imported manual other : OpportunitySource

pub data OpportunityAutonomyLevel : Type 0 where
  observe suggest approve_to_send autopilot : OpportunityAutonomyLevel

pub data RevenueAttributionType : Type 0 where
  generated recovered assisted organic : RevenueAttributionType

pub data RecoveryPlayType : Type 0 where
  missed_call_recovery new_lead_recovery unsold_estimate_recovery old_lead_reactivation :
      RecoveryPlayType

pub data RecoveryActionStatus : Type 0 where
  pending ready waiting_approval executing completed waiting_customer human_required cancelled
        failed suppressed :
      RecoveryActionStatus

pub data NextBestActionKind : Type 0 where
  send_sms send_email wait request_human attempt_booking stop_recovery mark_lost ask_qualification :
      NextBestActionKind

pub data Channel : Type 0 where
  sms email manual : Channel

pub data RequestedBy : Type 0 where
  policy copilot human : RequestedBy

pub data DeliveryState : Type 0 where
  prepared_only mock_only live_disabled : DeliveryState

pub data ExecutionState : Type 0 where
  observed suggested pending_approval executed suppressed : ExecutionState

-- The values of `suppressionReason` that the recovery engine writes.
pub data SuppressionReason : Type 0 where
  contact_suppressed do_not_contact opportunity_won explicit_rejection human_takeover_active
        outside_contact_window recovery_already_active :
      SuppressionReason

-- The reason codes that the scoring writes.
pub data ReasonCode : Type 0 where
  inquiry_exists customer_replied explicit_service_intent booking_requested estimate_engaged
        explicit_rejection do_not_contact very_high_value high_value meaningful_value known_value
        above_average_ticket value_not_yet_known high_value_service_type customer_engaged
        recent_customer_activity follow_up_window_open estimate_viewed_repeatedly multiple_attempts
        contact_suppressed human_review_active emergency_service missed_inbound_call
        customer_active_now :
      ReasonCode

-- `['WON', 'DO_NOT_CONTACT'].includes(status)`
abbrev pub is_closed : OpportunityStatus → Bool
is_closed OpportunityStatus.won = true
is_closed OpportunityStatus.do_not_contact = true
is_closed _ = false

-- The statuses of an action that opting out cancels.
abbrev pub is_open : RecoveryActionStatus → Bool
is_open RecoveryActionStatus.pending = true
is_open RecoveryActionStatus.ready = true
is_open RecoveryActionStatus.waiting_approval = true
is_open RecoveryActionStatus.executing = true
is_open RecoveryActionStatus.waiting_customer = true
is_open RecoveryActionStatus.human_required = true
is_open _ = false

-- The same without `HUMAN_REQUIRED`, as a reply and a takeover cancel them.
abbrev pub is_automatic : RecoveryActionStatus → Bool
is_automatic RecoveryActionStatus.human_required = false
is_automatic s = is_open s
