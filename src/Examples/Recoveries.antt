-- ===== src/Examples/Recoveries.antt =====
-- The theorems on recovery at a ceremony that one custodian has approved.
use vorcaro_ledger.Prelude.{none, [], ◌∷◌, codes}
use vorcaro_ledger.Protocol.Types.{EventType, ObjectType, Role}
use vorcaro_ledger.Protocol.Result.{ok}
use vorcaro_ledger.Protocol.Envelope.{ClientEventEnvelope}
use vorcaro_ledger.Database.Tables.{
  Db, ExecutiveRow, CeremonyRow, ApprovalRow, ExecutiveStatus, CeremonyStatus,
}
use vorcaro_ledger.Ledger.Chain.{IsChain}
use vorcaro_ledger.Recovery.Ceremony.{
  RecoveryCeremony, ApproveRecoveryInput, approve_ceremony, KeyManagementService, RecoveryService,
}
use vorcaro_ledger.Recovery.Checks.{ExecuteRecoveryInput}
use vorcaro_ledger.Recovery.Execution.{execute_ceremony}
use vorcaro_ledger.Recovery.Chain.{execute_ceremony-IsChain}
use vorcaro_ledger.Recovery.Approval.{Approval}
use vorcaro_ledger.Examples.Host.{plain_host, key_of_32, key_of_64}
use vorcaro_ledger.Examples.Samples.{fresh_db, chief, event_of}

abbrev plain_kms : KeyManagementService
plain_kms = record {
  rewrap_key = λ from to wrapped. ok wrapped;
  sign_with_key = λ handle bytes. ok key_of_64;
}

abbrev pub service : RecoveryService
service = record {
  host = plain_host;
  kms = plain_kms;
  server_signing_key_handle = codes "server";
  recovery_master_key_handle = codes "master";
  policy = record { required_approvals = 1; custodian_ids = codes "e1" ∷ [] };
  now = codes "t";
}

abbrev colleague : ExecutiveRow
colleague = record {
  id = codes "e2";
  role = Role.cfo;
  status = ExecutiveStatus.quarantined;
  signing_public_key = key_of_32;
  key_version = 1;
}

abbrev pub ceremony : CeremonyRow
ceremony = record {
  id = codes "c1";
  executive_id = codes "e2";
  initiated_by = codes "e1";
  new_public_key = key_of_32;
  status = CeremonyStatus.threshold_met;
  required_approvals = 1;
  created_at = codes "t";
  completed_at = none;
}

abbrev pub approval : ApprovalRow
approval = record {
  ceremony_id = codes "c1";
  approver_id = codes "e1";
  approval_signature = key_of_64;
  created_at = codes "t";
}

abbrev pub approved_db : Db
approved_db = record fresh_db {
  executives = colleague ∷ chief ∷ [];
  recovery_ceremonies = ceremony ∷ [];
  recovery_approvals = approval ∷ [];
}

abbrev pub performed : ClientEventEnvelope
performed = record (event_of (codes "ev1") 0 1) {
  event_type = EventType.recovery_performed;
  object_type = ObjectType.executive_key;
  object_id = codes "c1";
}

abbrev pub rotated : ClientEventEnvelope
rotated = record (event_of (codes "ev2") 0 2) {
  event_type = EventType.key_rotated;
  object_type = ObjectType.executive_key;
  object_id = codes "e2:2";
}

abbrev pub execution : ExecuteRecoveryInput
execution = record {
  ceremony_id = codes "c1";
  executed_by = codes "e1";
  executor_device_id = codes "d1";
  recovery_performed_event = performed;
  key_rotated_event = rotated;
}

execute_ceremony-IsChain_example :
    IsChain plain_host (execute_ceremony service execution approved_db).1.ledger_events
execute_ceremony-IsChain_example = execute_ceremony-IsChain service execution approved_db tt

abbrev open_db : Db
open_db = record approved_db {
  recovery_ceremonies = record ceremony { status = CeremonyStatus.open_ceremony } ∷ [];
  recovery_approvals = [];
}

abbrev pub approving : ApproveRecoveryInput
approving = record {
  ceremony_id = codes "c1";
  approver_id = codes "e1";
  approval_signature = key_of_64;
}

abbrev counted_db : Db
counted_db = (approve_ceremony service approving open_db).1

abbrev counted_ceremony : RecoveryCeremony
counted_ceremony = record { row = ceremony; approvals = approval ∷ [] }
