-- ===== src/Webhook.antt =====
-- The webhook of Documenso: api/documenso_webhook.py, services/webhook.py, services/webhook_auth.py,
-- services/webhook_dispatcher.py and constants/webhook_events.py.
pub mod Auth
pub mod Dispatch
pub mod Endpoint
pub mod Secret
pub mod Trust
