-- ===== src/Recovery.antt =====
-- server/src/recovery/service.ts: custodians approve the replacement of an executive's key.
pub mod Statements
pub mod Ceremony
pub mod Rotation
pub mod Checks
pub mod Execution
pub mod Chain
pub mod Authority
pub mod Rotated
pub mod Executed
pub mod Once
pub mod Approval
pub mod Trail
