-- ===== src/Recovery/Authority.antt =====
-- What stands behind an execution that server/src/recovery/service.ts lets pass.
use vorcaro_ledger.Prelude.{
  ℕ, ◌+◌, ◌<◌, true, Option, some, Text, ◌≡◌, arith, inl, inr, text_eq_iff, is_yes_iff,
  Option-cases,
}
use vorcaro_ledger.Protocol.Types.{EventType, ObjectType, EventType-discrete, ObjectType-discrete}
use vorcaro_ledger.Protocol.Result.{ok, Result-cases}
use vorcaro_ledger.Protocol.Envelope.{ClientEventEnvelope}
use vorcaro_ledger.Protocol.Crypto.{Host, payload_hash, constant_time_equal}
use vorcaro_ledger.Database.Tables.{
  Db, ExecutiveRow, ExecutiveKeyRow, CeremonyStatus, DeviceStatus, ExecutiveStatus,
}
use vorcaro_ledger.Database.Select.{find_executive_key}
use vorcaro_ledger.Ledger.Rows.{DeviceExecutiveRow, find_device_executive}
use vorcaro_ledger.Ledger.Admission.{signature_holds}
use vorcaro_ledger.Recovery.Ceremony.{RecoveryService, get_ceremony, get_executive}
use vorcaro_ledger.Recovery.Checks.{
  ExecuteRecoveryInput, Target, is_threshold_met, rotated_key_object_id, assert_execution_event,
  assert_device_row, assert_device_can_execute, assert_consecutive_counters, assert_event_signature,
  assert_payload_hash, check_execution,
}

-- An event of the execution: its kind, its author and its object, and the key that verifies it.
pub record Vouched (host : Host) (input : ExecuteRecoveryInput) (db : Db)
    (event : ClientEventEnvelope) (event_type : EventType) (object_id : Text) : Type 0 where
  pub kind : event.event_type ≡ event_type
  pub author : event.actor_id ≡ input.executed_by
  pub device : event.device_id ≡ input.executor_device_id
  pub object : event.object_type ≡ ObjectType.executive_key
  pub named : event.object_id ≡ object_id
  pub key : Option ExecutiveKeyRow
  pub key_found : find_executive_key event.actor_id event.base_server_sequence db ≡ ok key
  pub verified : signature_holds host event key ≡ true
  pub hashed :
      constant_time_equal host (payload_hash host event.encrypted_payload) event.payload_hash ≡ true

-- The device that sends both events.
pub record Executor (input : ExecuteRecoveryInput) (counter : ℕ) (db : Db) : Type 0 where
  pub row : DeviceExecutiveRow
  pub found : find_device_executive input.executor_device_id db ≡ some row
  pub enrolled : row.device_status ≡ DeviceStatus.enrolled
  pub own : row.executive_id ≡ input.executed_by
  pub active : row.executive_status ≡ ExecutiveStatus.active
  pub fresh : row.max_event_counter < counter

assert_device_can_execute-Executor :
    (input : ExecuteRecoveryInput) (counter : ℕ) (db : Db)
    → assert_device_can_execute input.executor_device_id input.executed_by counter db ≡ ok tt
    → Executor input counter db
unfolding assert_device_can_execute assert_device_row
assert_device_can_execute-Executor input counter db h =
    elim (Option-cases (find_device_executive input.executor_device_id db)) [
      | inr (row, found) ↦ record {
        row = row;
        found = found;
        enrolled = ground arith;
        own = (text_eq_iff row.executive_id input.executed_by).0 (ground arith);
        active = ground arith;
        fresh = ground arith;
      }
      | inl absent ↦ absurd (ground arith)
    ]

assert_event-Vouched :
    (input : ExecuteRecoveryInput) (event : ClientEventEnvelope) (event_type : EventType)
    (object_id : Text) (host : Host) (db : Db)
    → assert_execution_event input event event_type object_id ≡ ok tt
    → assert_event_signature host event db ≡ ok tt
    → assert_payload_hash host event ≡ ok tt
    → Vouched host input db event event_type object_id
unfolding assert_execution_event assert_event_signature assert_payload_hash
assert_event-Vouched input event event_type object_id host db h signed hashed =
    elim (Result-cases (find_executive_key event.actor_id event.base_server_sequence db)) [
      | inr (e, threw) ↦ absurd (ground arith)
      | inl (key, found) ↦ record {
        kind = (is_yes_iff (EventType-discrete event.event_type event_type)).0 (ground arith);
        author = (text_eq_iff event.actor_id input.executed_by).0 (ground arith);
        device = (text_eq_iff event.device_id input.executor_device_id).0 (ground arith);
        object =
            (is_yes_iff (ObjectType-discrete event.object_type ObjectType.executive_key)).0
              (ground arith);
        named = (text_eq_iff event.object_id object_id).0 (ground arith);
        key = key;
        key_found = found;
        verified = ground arith;
        hashed = ground (arith, hashed);
      }
    ]

module _ (s : RecoveryService) (input : ExecuteRecoveryInput)
    (performed rotated : ClientEventEnvelope) (db : Db) (target : Target) where
  pub record Cleared : Type 0 where
    pub found : get_ceremony input.ceremony_id db ≡ ok target.ceremony
    pub approved : target.ceremony.status ≡ CeremonyStatus.threshold_met
    pub executive : ExecutiveRow
    pub known : get_executive target.ceremony.executive_id db ≡ ok executive
    pub current : executive.key_version ≡ target.old_key_version
    pub performed_vouched :
        Vouched s.host input db performed EventType.recovery_performed target.ceremony.id
    pub rotated_vouched :
        Vouched s.host input db rotated EventType.key_rotated
          (rotated_key_object_id target.ceremony.executive_id (target.old_key_version + 1))
    pub executor : Executor input performed.device_event_counter db
    pub consecutive : rotated.device_event_counter ≡ performed.device_event_counter + 1

  -- What the checks of an execution that passes them have shown.
  pub check_execution-Cleared : check_execution s input performed rotated db ≡ ok target → Cleared
  unfolding check_execution is_threshold_met assert_consecutive_counters
  check_execution-Cleared h = elim (Result-cases (get_ceremony input.ceremony_id db)) [
    | inr (e, threw) ↦ absurd (ground arith)
    | inl (ceremony, found) ↦ elim (Result-cases (get_executive ceremony.executive_id db)) [
      | inr (e, threw) ↦ absurd (ground arith)
      | inl (executive, known) ↦ record {
        found = ground (arith, found);
        approved = ground arith;
        executive = executive;
        known = ground (arith, known);
        current = ground arith;
        performed_vouched =
            assert_event-Vouched input performed EventType.recovery_performed target.ceremony.id
              s.host db (ground arith) (ground arith) (ground arith);
        rotated_vouched =
            assert_event-Vouched input rotated EventType.key_rotated
              (rotated_key_object_id target.ceremony.executive_id (target.old_key_version + 1))
              s.host db (ground arith) (ground arith) (ground arith);
        executor =
            assert_device_can_execute-Executor input performed.device_event_counter db
              (ground arith);
        consecutive = ground arith;
      }
    ]
  ]
