-- ===== src/Database.antt =====
-- The ledger database: its tables, the statements that read and write them, and transactions.
pub mod Tables
pub mod Action
pub mod Select
pub mod Insert
pub mod Keeps
pub mod Returns
pub mod Restores
