-- ===== src/Policy.antt =====
-- server/src/policy: what the active policy says of an event (engine.ts), and how a policy becomes
-- active (service.ts).
pub mod Document
pub mod Amount
pub mod Snapshot
pub mod Engine
pub mod Decision
pub mod Schema
pub mod Stored
pub mod Reading
pub mod Activation
pub mod Storing
pub mod Grounds
pub mod Activated
pub mod Trail
