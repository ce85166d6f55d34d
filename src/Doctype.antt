-- ===== src/Doctype.antt =====
-- The controllers of the doctypes: doctype/*/*.py.
pub mod Contract
pub mod ContractVersion
pub mod Approval
pub mod SignatureRequest
pub mod Counterparty
