-- ===== src/Projections.antt =====
-- server/src/projections/worker.ts: the read model that follows the ledger.
pub mod Tables
pub mod Statements
pub mod Cash
pub mod Worker
pub mod Progress
pub mod Rebuild
pub mod Frame
pub mod Totals
pub mod Order
pub mod Accounts
pub mod Batches
pub mod Rounds
pub mod Loop
pub mod Equivalence
pub mod Liveness
pub mod Coverage
