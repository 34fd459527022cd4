-- ===== src/Ledger.antt =====
-- server/src/ledger/appender.ts: the only writer of client events.
pub mod Rows
pub mod Conflicts
pub mod Append
pub mod Effects
pub mod Outcome
pub mod Frame
pub mod Chain
pub mod Idempotence
pub mod Authority
pub mod Watermark
pub mod Agreement
pub mod Queue
pub mod Admission
pub mod Trail
