-- ===== src/Protocol.antt =====
-- packages/protocol: the shared event types, their schemas, the canonical encoding, the hashes
-- and the signatures.
pub mod Types
pub mod Result
pub mod Pattern
pub mod Envelope
pub mod Revocation
pub mod Schema
pub mod Spelling
pub mod Decimal
pub mod Json
pub mod Canonical
pub mod Crypto
