-- ===== src/Store/Webhooks.antt =====
-- Webhook events (`findWebhookEndpoint`, `recordWebhookEvent`, `markWebhookProcessed`).
use closer_v.Prelude.{
  Bool, true, false, not, ◌&&◌, ◌||◌, ◌==◌, Option, none, some, [], ◌∷◌, ◌++◌, find?, update_first,
  String,
}
use closer_v.Domain.Values.{Uuid, Key, Instant}
use closer_v.Domain.Model.{WebhookEndpoint, WebhookEventRecord, ProcessingState}
use closer_v.Store.State.{
  State, Action, api_error, webhook_replay_conflict, pure, gets, ◌>>=◌, ◌>>◌, throw_if, modify,
}
use closer_v.Store.Lookup.{same_text}

unfoldable pub find_webhook_endpoint : String → Key → State → Option WebhookEndpoint
find_webhook_endpoint provider endpoint s =
    find? (λ e. same_text e.provider provider && same_text e.endpoint_id endpoint)
      s.webhook_endpoints

abbrev pub is_event : String → Key → WebhookEventRecord → Bool
is_event provider event e = same_text e.provider provider && same_text e.provider_event_id event

abbrev pub new_event : WebhookEndpoint → Key → Key → Uuid → Instant → WebhookEventRecord
new_event endpoint event payload_hash fresh now = record {
  id = fresh;
  tenant_id = endpoint.tenant_id;
  provider = endpoint.provider;
  provider_event_id = event;
  received_at = now;
  verified = true;
  payload_hash = payload_hash;
  processing_state = ProcessingState.received;
  replayed = false;
}

unfoldable pub replay_event : WebhookEndpoint → Key → WebhookEventRecord → Action WebhookEventRecord
replay_event endpoint payload_hash e = do
  throw_if (not (e.tenant_id == endpoint.tenant_id) || not (same_text e.payload_hash payload_hash))
      (api_error 409 webhook_replay_conflict)
  pure (record e { replayed = true })

unfoldable pub record_webhook_event :
    WebhookEndpoint → Key → Key → Uuid → Instant → Action WebhookEventRecord
unfolding replay_event
record_webhook_event endpoint event payload_hash fresh now = do
  existing ← gets (λ s. find? (is_event endpoint.provider event) s.webhook_events)
  elim existing [
    | some e ↦ replay_event endpoint payload_hash e
    | none ↦ do
      modify (λ s. record s {
        webhook_events = s.webhook_events ++ new_event endpoint event payload_hash fresh now ∷ [];
      })
      pure (new_event endpoint event payload_hash fresh now)
  ]

abbrev pub process : WebhookEventRecord → WebhookEventRecord
process e = record e { processing_state = ProcessingState.processed }

unfoldable pub mark_webhook_processed : Uuid → Action (Unit {0})
mark_webhook_processed event =
    modify (λ s. record s {
      webhook_events = update_first (λ e. e.id == event) process s.webhook_events;
    })
