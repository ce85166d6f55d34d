-- ===== src/Safety.antt =====
-- What every call of the service layer keeps of the versions and the approvals, whether it returns
-- or raises.
pub mod Frame
pub mod Signing
pub mod Status
pub mod Rules
pub mod Moves
pub mod Approvals
pub mod Signatures
pub mod Outside
pub mod History
pub mod Lifecycle
pub mod Rejection
pub mod Decisions
