-- ===== src/Store/Lookup.antt =====
-- The tests by which the store finds its records, and equality of optional ids.
use text.Mathlib.Text.{◌==◌ as str_eq}
use closer_v.Prelude.{Bool, true, false, ◌&&◌, ◌==◌, Option, none, some, any, List, leb}
use closer_v.Domain.Values.{Uuid, Key, Instant}
use closer_v.Domain.Opportunity.{OpportunityRecord}
use closer_v.Domain.Model.{
  CustomerRecord, LeadRecord, ConversationRecord, ConversationMode, FollowUpJobStatus,
}
use closer_v.Store.State.{OptedOut, Handoff}

abbrev pub same_text : Key → Key → Bool
same_text a b = str_eq a b

-- `a === b` for ids that may be null.
abbrev pub same_id : Option Uuid → Option Uuid → Bool
same_id none none = true
same_id none (some b) = false
same_id (some a) none = false
same_id (some a) (some b) = a == b

abbrev pub is_some {ℓ} : {A : Type ℓ} → Option A → Bool
is_some none = false
is_some (some a) = true

-- `a ?? b`
abbrev pub or_else {ℓ} : {A : Type ℓ} → Option A → Option A → Option A
or_else none b = b
or_else (some a) b = some a

-- `until && until <= now`
abbrev pub has_passed : Option Instant → Instant → Bool
has_passed none now = false
has_passed (some until) now = leb until now

abbrev pub is_customer : Uuid → Uuid → CustomerRecord → Bool
is_customer tenant id c = c.tenant_id == tenant && c.id == id

abbrev pub is_lead : Uuid → Uuid → LeadRecord → Bool
is_lead tenant id l = l.tenant_id == tenant && l.id == id

abbrev pub is_conversation : Uuid → Uuid → ConversationRecord → Bool
is_conversation tenant id c = c.tenant_id == tenant && c.id == id

abbrev pub is_opportunity : Uuid → Uuid → OpportunityRecord → Bool
is_opportunity tenant id p = p.tenant_id == tenant && p.id == id

-- The opportunity of a conversation.
abbrev pub talks_in : Uuid → Uuid → OpportunityRecord → Bool
talks_in tenant conversation p =
    p.tenant_id == tenant && same_id p.conversation_id (some conversation)

abbrev pub is_handoff : Uuid → Uuid → Handoff → Bool
is_handoff tenant conversation h = h.tenant_id == tenant && h.conversation_id == conversation

abbrev pub is_opted_out : Uuid → Uuid → List OptedOut → Bool
is_opted_out tenant customer = any (λ e. e.tenant_id == tenant && e.customer_id == customer)

-- `['scheduled', 'failed', 'leased'].includes(status)`
abbrev pub is_pending : FollowUpJobStatus → Bool
is_pending FollowUpJobStatus.scheduled = true
is_pending FollowUpJobStatus.failed = true
is_pending FollowUpJobStatus.leased = true
is_pending _ = false

abbrev pub is_ai_active : ConversationMode → Bool
is_ai_active ConversationMode.ai_active = true
is_ai_active _ = false

abbrev pub is_human_active : ConversationMode → Bool
is_human_active ConversationMode.human_active = true
is_human_active _ = false
