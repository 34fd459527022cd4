-- ===== src/Protocol/Envelope.antt =====
-- The records of packages/protocol/src/schemas.ts that the server keeps and exchanges. A `bigint`
-- that its schema keeps non-negative is a natural number; an amount is an integer.
use vorcaro_ledger.Prelude.{ℕ, Option, Text}
use vorcaro_ledger.Prelude.Int.{ℤ}
use vorcaro_ledger.Protocol.Types.{EventStatus, EventType, ObjectType, ErrorCode}

pub record PolicyMetadata : Type 0 where
  pub account_id : Option Text
  pub counterparty_account_id : Option Text
  pub entity_id : Option Text
  pub amount_minor_units : Option ℤ
  pub currency : Option Text
  pub transaction_currency : Option Text
  pub exchange_rate : Option Text
  pub default_currency_snapshot_id : Option Text
  pub local_rate : Option ℕ

pub record ClientEventEnvelope : Type 0 where
  pub event_id : Text
  pub event_type : EventType
  pub actor_id : Text
  pub device_id : Text
  pub client_timestamp : Text
  pub base_server_sequence : ℕ
  pub device_event_counter : ℕ
  pub object_type : ObjectType
  pub object_id : Text
  pub policy_metadata : PolicyMetadata
  pub payload_hash : Text
  pub encrypted_payload : Text
  pub client_signature : Text

pub record UnsignedServerAck : Type 0 where
  pub event_id : Text
  pub status : EventStatus
  pub server_sequence : Option ℕ
  pub resulting_ledger_hash : Option Text
  pub server_timestamp : Text
  pub error_code : Option ErrorCode

pub record ServerAck : Type 0 where
  pub unsigned : UnsignedServerAck
  pub open unsigned use *
  pub server_signature : Text
