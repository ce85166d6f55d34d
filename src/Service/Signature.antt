-- ===== src/Service/Signature.antt =====
-- services/signature.py
pub mod Checks
pub mod Create
pub mod Send
pub mod Executed
pub mod Complete
pub mod Sign
pub mod Webhook
pub mod Cancel
