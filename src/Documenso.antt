-- ===== src/Documenso.antt =====
-- The app docusign_integration: its settings, HTTP client and provider.
pub mod Settings
pub mod Http
pub mod Provider
pub mod Errors
