-- ===== src/Enrollment.antt =====
-- server/src/pki/enrollment.ts: enrollment of devices by one-time tokens, and their revocation.
pub mod Service
pub mod Statements
pub mod Tokens
pub mod Checks
pub mod Completion
pub mod Revocation
pub mod Chain
pub mod Grounds
pub mod Effects
pub mod Once
pub mod Revoked
pub mod Errors
pub mod Trail
