-- ===== src/Ledger/Rows.antt =====
-- The row that an event becomes, the acknowledgement that a row gives back, and the active policy:
-- `insertLedgerEvent`, `rowToAck`, `stringifyPolicyMetadata` and `findDeviceExecutive` of
-- server/src/ledger/appender.ts, and `readActivePolicy` of server/src/policy/engine.ts.
use mathlib.Core.Option
use vorcaro_ledger.Prelude.{ℕ, Option, none, some, Text, Bool, true, false, filter_by}
use vorcaro_ledger.Protocol.Types.{EventStatus, ErrorCode, Role}
use vorcaro_ledger.Protocol.Decimal.{decimal, decimal_ℤ}
use vorcaro_ledger.Protocol.Envelope.{PolicyMetadata, ClientEventEnvelope, ServerAck}
use vorcaro_ledger.Protocol.Crypto.{Host}
use vorcaro_ledger.Protocol.Result.{Result}
use vorcaro_ledger.Policy.Document.{PolicyDocument}
use vorcaro_ledger.Policy.Stored.{read_optional, read_policy_document}
use vorcaro_ledger.Database.Tables.{
  Db, StoredMetadata, LedgerEventRow, DeviceRow, ExecutiveRow, PolicyRow, DeviceStatus,
  ExecutiveStatus,
}
use vorcaro_ledger.Database.Select.{find_device, find_executive, max_by}

unfoldable pub stringify_policy_metadata : PolicyMetadata → StoredMetadata
stringify_policy_metadata m = record {
  account_id = m.account_id;
  counterparty_account_id = m.counterparty_account_id;
  entity_id = m.entity_id;
  amount_minor_units = Option.map decimal_ℤ m.amount_minor_units;
  currency = m.currency;
  transaction_currency = m.transaction_currency;
  exchange_rate = m.exchange_rate;
  default_currency_snapshot_id = m.default_currency_snapshot_id;
  local_rate = Option.map decimal m.local_rate;
}

-- The values that `insertLedgerEvent` binds.
pub record InsertInput : Type 0 where
  pub event : ClientEventEnvelope
  pub server_sequence : ℕ
  pub previous_ledger_hash : Text
  pub resulting_ledger_hash : Text
  pub server_signature : Text
  pub status : EventStatus
  pub error_code : Option ErrorCode
  pub server_timestamp : Text

abbrev accepted_at : EventStatus → Text → Option Text
accepted_at EventStatus.accepted timestamp = some timestamp
accepted_at _ timestamp = none

unfoldable pub row_of : Host → InsertInput → LedgerEventRow
row_of host input = record {
  id = input.event.event_id;
  server_sequence = some input.server_sequence;
  event_type = input.event.event_type;
  actor_id = input.event.actor_id;
  device_id = input.event.device_id;
  device_event_counter = input.event.device_event_counter;
  base_server_sequence = input.event.base_server_sequence;
  object_type = input.event.object_type;
  object_id = input.event.object_id;
  policy_metadata = stringify_policy_metadata input.event.policy_metadata;
  encrypted_payload = host.base64_decode input.event.encrypted_payload;
  payload_hash = input.event.payload_hash;
  previous_ledger_hash = some input.previous_ledger_hash;
  resulting_ledger_hash = some input.resulting_ledger_hash;
  client_signature = input.event.client_signature;
  server_signature = input.server_signature;
  status = input.status;
  error_code = input.error_code;
  client_timestamp = input.event.client_timestamp;
  server_timestamp = input.server_timestamp;
  accepted_at = accepted_at input.status input.server_timestamp;
}

-- `rowToAck`
unfoldable pub row_to_ack : LedgerEventRow → ServerAck
row_to_ack row = record {
  unsigned = record {
    event_id = row.id;
    status = row.status;
    server_sequence = row.server_sequence;
    resulting_ledger_hash = row.resulting_ledger_hash;
    server_timestamp = row.server_timestamp;
    error_code = row.error_code;
  };
  server_signature = row.server_signature;
}

pub record DeviceExecutiveRow : Type 0 where
  pub device_status : DeviceStatus
  pub certificate_fingerprint : Text
  pub executive_id : Text
  pub executive_status : ExecutiveStatus
  pub executive_role : Role
  pub max_event_counter : ℕ
  pub risk_score : ℕ

abbrev device_executive : DeviceRow → ExecutiveRow → DeviceExecutiveRow
device_executive d e = record {
  device_status = d.status;
  certificate_fingerprint = d.certificate_fingerprint;
  executive_id = d.executive_id;
  executive_status = e.status;
  executive_role = e.role;
  max_event_counter = d.max_event_counter;
  risk_score = d.risk_score;
}

abbrev join_executive : Db → Option DeviceRow → Option DeviceExecutiveRow
join_executive db none = none
join_executive db (some d) = Option.map (device_executive d) (find_executive d.executive_id db)

-- The join of a device with its executive.
unfoldable pub find_device_executive : Text → Db → Option DeviceExecutiveRow
find_device_executive device_id db = join_executive db (find_device device_id db)

abbrev is_activated : PolicyRow → Bool
is_activated p = elim p.activated_at_sequence [ none ↦ false | some _ ↦ true ]

unfoldable pub read_active_policy : Db → Result (Option PolicyDocument)
read_active_policy db =
    read_optional (λ p. read_policy_document p.document)
      (max_by (λ p. p.version) (filter_by is_activated db.policies))
