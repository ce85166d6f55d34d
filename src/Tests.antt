-- ===== src/Tests.antt =====
-- The theorems at concrete inputs.
mod Names
mod Sample
mod Lifecycle
mod Doctypes
mod Signing
mod Portal
mod Webhook
mod Documenso
mod Report
