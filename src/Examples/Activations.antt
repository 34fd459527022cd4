-- ===== src/Examples/Activations.antt =====
-- The first policy of a small server is activated.
use vorcaro_ledger.Prelude.{none, some, [], codes}
use vorcaro_ledger.Protocol.Types.{EventStatus, EventType, ObjectType}
use vorcaro_ledger.Protocol.Envelope.{ClientEventEnvelope}
use vorcaro_ledger.Protocol.Crypto.{compute_ledger_hash}
use vorcaro_ledger.Database.Tables.{Db}
use vorcaro_ledger.Database.Returns.{Returns}
use vorcaro_ledger.Database.Select.{genesis_ledger_hash}
use vorcaro_ledger.Policy.Document.{PolicyDocument}
use vorcaro_ledger.Policy.Snapshot.{document_hash}
use vorcaro_ledger.Policy.Activation.{
  PolicyService, ActivatePolicyInput, ActivatePolicyResult, activate_policy,
}
use vorcaro_ledger.Examples.Host.{plain_host, morning, key_of_64}
use vorcaro_ledger.Examples.Samples.{fresh_db, event_of}

abbrev secretary : PolicyService
secretary = record { appender = morning; now = codes "2026-01-01T08:00:00.000Z" }

abbrev unhashed : PolicyDocument
unhashed = record {
  id = codes "p1";
  version = 1;
  default_currency = codes "BRL";
  permissions = [];
  approval_rules = [];
  document_hash = [];
  activated_at_sequence = none;
  signature = key_of_64;
}

abbrev first_policy : PolicyDocument
first_policy = record unhashed { document_hash = document_hash plain_host unhashed }

abbrev policy_event : ClientEventEnvelope
policy_event = record (event_of (codes "ev1") 0 1) {
  event_type = EventType.policy_changed;
  object_type = ObjectType.policy;
  object_id = codes "p1";
}

abbrev activation : ActivatePolicyInput
activation = record {
  policy = first_policy;
  activation_event = policy_event;
  certificate_fingerprint = codes "fp";
  activated_by = codes "admin";
}

abbrev activated_result : ActivatePolicyResult
activated_result = record {
  policy = record first_policy { activated_at_sequence = some 1 };
  acknowledgement = record {
    unsigned = record {
      event_id = codes "ev1";
      status = EventStatus.accepted;
      server_sequence = some 1;
      resulting_ledger_hash =
          some (compute_ledger_hash plain_host genesis_ledger_hash 1 policy_event);
      server_timestamp = morning.now;
      error_code = none;
    };
    server_signature = key_of_64;
  };
}

abbrev activated_db : Db
activated_db = (activate_policy secretary activation fresh_db).1
