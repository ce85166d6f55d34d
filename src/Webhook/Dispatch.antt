-- ===== src/Webhook/Dispatch.antt =====
-- constants/webhook_events.py, services/webhook_dispatcher.py and services/webhook.py
use contract_management.Prelude.{
  String, Option, none, some, List, [], ◌∷◌, ◌==◌, string_eq, if◌then◌else◌,
}
use contract_management.Prelude.Lists.{first}
use contract_management.Prelude.Text.{truthy, strip}
use contract_management.Failure.{attribute_error}
use contract_management.Exec.{raise, skip}
use contract_management.Site.{M}
use contract_management.Platform.{
  Platform, InnerPayload, absent, not_a_dict, document, DocumentPayload,
}
use contract_management.Service.Signature.Webhook

-- DocumensoWebhookEvent
pub data DocumensoWebhookEvent : Type 0 where
  document_completed document_deleted document_rejected document_sent : DocumensoWebhookEvent
  recipient_completed recipient_signed : DocumensoWebhookEvent

unfoldable pub event_name : DocumensoWebhookEvent → String
event_name DocumensoWebhookEvent.document_completed = "DOCUMENT_COMPLETED"
event_name DocumensoWebhookEvent.document_deleted = "DOCUMENT_DELETED"
event_name DocumensoWebhookEvent.document_rejected = "DOCUMENT_REJECTED"
event_name DocumensoWebhookEvent.document_sent = "DOCUMENT_SENT"
event_name DocumensoWebhookEvent.recipient_completed = "RECIPIENT_COMPLETED"
event_name DocumensoWebhookEvent.recipient_signed = "RECIPIENT_SIGNED"

-- The keys of the dispatch table. Each handler is a method named after its event.
unfoldable pub dispatch_table : List DocumensoWebhookEvent
dispatch_table =
    DocumensoWebhookEvent.document_completed ∷ DocumensoWebhookEvent.document_deleted
    ∷ DocumensoWebhookEvent.document_rejected ∷ DocumensoWebhookEvent.document_sent
    ∷ DocumensoWebhookEvent.recipient_completed ∷ DocumensoWebhookEvent.recipient_signed ∷ []

-- `_get_handler`
unfoldable pub get_handler : String → Option DocumensoWebhookEvent
unfolding first dispatch_table event_name
get_handler event = first (λ e. event_name e == event) dispatch_table

-- {}
abbrev pub no_fields : DocumentPayload
no_fields = record { external_id = ""; status = ""; recipients = [] }

-- `_handle_document_completed`; what is not a dictionary has no method "get".
unfoldable pub handle_document_completed : Platform → InnerPayload → M (Unit {0})
handle_document_completed p absent = Webhook.process_document_completed p no_fields
handle_document_completed p not_a_dict = raise attribute_error
handle_document_completed p (document payload) = Webhook.process_document_completed p payload

-- The handlers. All but one only log.
unfoldable pub run_handler : Platform → Option DocumensoWebhookEvent → InnerPayload → M (Unit {0})
unfolding handle_document_completed
run_handler p none payload = skip
run_handler p (some DocumensoWebhookEvent.document_completed) payload =
    handle_document_completed p payload
run_handler p (some _) payload = skip

-- `WebhookDispatcher.dispatch`, to which `WebhookService.handle` passes the payload on.
unfoldable pub dispatch : Platform → Option String → InnerPayload → M (Unit {0})
unfolding get_handler run_handler strip
dispatch p none payload = skip
dispatch p (some event) payload =
    if truthy (strip event) then run_handler p (get_handler (strip event)) payload else skip
