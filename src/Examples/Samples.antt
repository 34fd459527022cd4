-- ===== src/Examples/Samples.antt =====
-- A server with one executive and one device, and events that the device sends.
use vorcaro_ledger.Prelude.{ℕ, true, none, [], ◌∷◌, Text, codes}
use vorcaro_ledger.Protocol.Types.{EventType, ObjectType, Role}
use vorcaro_ledger.Protocol.Envelope.{PolicyMetadata, ClientEventEnvelope}
use vorcaro_ledger.Database.Tables.{
  Db, ExecutiveRow, ExecutiveKeyRow, DeviceRow, ExecutiveStatus, DeviceStatus, empty_db,
}
use vorcaro_ledger.Ledger.Admission.{AppendEventRequest}
use vorcaro_ledger.Examples.Host.{key_of_32, key_of_64}

abbrev pub chief : ExecutiveRow
chief = record {
  id = codes "e1";
  role = Role.ceo;
  status = ExecutiveStatus.active;
  signing_public_key = key_of_32;
  key_version = 1;
}

abbrev chief_key : ExecutiveKeyRow
chief_key = record {
  executive_id = codes "e1";
  key_version = 1;
  signing_public_key = key_of_32;
  valid_from_sequence = 0;
  valid_until_sequence = none;
}

abbrev pub laptop : DeviceRow
laptop = record {
  id = codes "d1";
  executive_id = codes "e1";
  certificate_fingerprint = codes "fp";
  public_key = key_of_32;
  status = DeviceStatus.enrolled;
  hardware_backed = true;
  enrolled_at = codes "t";
  revoked_at = none;
  last_seen_at = none;
  risk_score = 0;
  max_event_counter = 0;
}

abbrev pub fresh_db : Db
fresh_db = record empty_db {
  executives = chief ∷ [];
  executive_keys = chief_key ∷ [];
  devices = laptop ∷ [];
}

abbrev pub no_metadata : PolicyMetadata
no_metadata = record {
  account_id = none;
  counterparty_account_id = none;
  entity_id = none;
  amount_minor_units = none;
  currency = none;
  transaction_currency = none;
  exchange_rate = none;
  default_currency_snapshot_id = none;
  local_rate = none;
}

-- A payload of four units has the digest that ends in 4.
abbrev pub event_of : Text → ℕ → ℕ → ClientEventEnvelope
event_of id base counter = record {
  event_id = id;
  event_type = EventType.account_created;
  actor_id = codes "e1";
  device_id = codes "d1";
  client_timestamp = codes "t";
  base_server_sequence = base;
  device_event_counter = counter;
  object_type = ObjectType.account;
  object_id = codes "a1";
  policy_metadata = no_metadata;
  payload_hash = codes "sha256:0000000000000000000000000000000000000000000000000000000000000004";
  encrypted_payload = codes "AAAA";
  client_signature = key_of_64;
}

abbrev pub request_of : ClientEventEnvelope → AppendEventRequest
request_of event = record { event = event; certificate_fingerprint = codes "fp" }

abbrev pub first_request : AppendEventRequest
first_request = request_of (event_of (codes "ev1") 0 1)

-- Another account event that was made on the empty ledger.
abbrev pub late_request : AppendEventRequest
late_request = request_of (event_of (codes "ev2") 0 2)

-- A counter that has been used.
abbrev pub replayed_request : AppendEventRequest
replayed_request = request_of (event_of (codes "ev3") 0 1)
