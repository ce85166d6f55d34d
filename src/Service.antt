-- ===== src/Service.antt =====
-- The service layer: services/*.py.
pub mod Notification
pub mod Workflow
pub mod Approval
pub mod Contract
pub mod ContractVersion
pub mod Signature
