-- ===== src/Recovery/Checks.antt =====
-- The checks of `executeCeremony` in server/src/recovery/service.ts.
use vorcaro_ledger.Prelude.{
  ℕ, ◌+◌, Bool, true, false, ◌&&◌, not, Option, none, some, ◌∷◌, ◌++◌, Text, text_eq, leb, ◌==◌,
}
use vorcaro_ledger.Protocol.Types.{EventType, ObjectType, ErrorCode, event_type_eq, object_type_eq}
use vorcaro_ledger.Protocol.Result.{Result, ok, err, coded, guard, ◌>>=◌, ◌>>◌}
use vorcaro_ledger.Protocol.Decimal.{decimal}
use vorcaro_ledger.Protocol.Envelope.{ClientEventEnvelope}
use vorcaro_ledger.Protocol.Crypto.{Host, payload_hash, constant_time_equal}
use vorcaro_ledger.Database.Tables.{Db, CeremonyRow, CeremonyStatus, is_enrolled, is_active}
use vorcaro_ledger.Database.Select.{find_executive_key}
use vorcaro_ledger.Ledger.Rows.{DeviceExecutiveRow, find_device_executive}
use vorcaro_ledger.Ledger.Admission.{signature_holds}
use vorcaro_ledger.Recovery.Ceremony.{RecoveryService, get_ceremony, get_executive}

pub record ExecuteRecoveryInput : Type 0 where
  pub ceremony_id : Text
  pub executed_by : Text
  pub executor_device_id : Text
  pub recovery_performed_event : ClientEventEnvelope
  pub key_rotated_event : ClientEventEnvelope

unfoldable pub is_threshold_met : CeremonyStatus → Bool
is_threshold_met CeremonyStatus.threshold_met = true
is_threshold_met _ = false

unfoldable pub rotated_key_object_id : Text → ℕ → Text
rotated_key_object_id executive_id key_version = executive_id ++ b':' ∷ decimal key_version

unfoldable pub assert_execution_event :
    ExecuteRecoveryInput → ClientEventEnvelope → EventType → Text → Result (Unit {0})
assert_execution_event input event event_type object_id =
    guard
      (event_type_eq event.event_type event_type
        && text_eq event.actor_id input.executed_by
        && text_eq event.device_id input.executor_device_id
        && object_type_eq event.object_type ObjectType.executive_key
        && text_eq event.object_id object_id)
      (coded ErrorCode.schema_invalid)

unfoldable pub assert_device_row : Text → ℕ → Option DeviceExecutiveRow → Result (Unit {0})
assert_device_row executive_id counter none = err (coded ErrorCode.cert_revoked)
assert_device_row executive_id counter (some row) = do
  guard
      (is_enrolled row.device_status
        && text_eq row.executive_id executive_id
        && is_active row.executive_status)
      (coded ErrorCode.cert_revoked)
  guard (not (leb counter row.max_event_counter)) (coded ErrorCode.replay_counter)

unfoldable pub assert_device_can_execute : Text → Text → ℕ → Db → Result (Unit {0})
assert_device_can_execute device_id executive_id counter db =
    assert_device_row executive_id counter (find_device_executive device_id db)

unfoldable pub assert_consecutive_counters :
    ClientEventEnvelope → ClientEventEnvelope → Result (Unit {0})
assert_consecutive_counters first second =
    guard (second.device_event_counter == first.device_event_counter + 1)
      (coded ErrorCode.replay_counter)

unfoldable pub assert_event_signature : Host → ClientEventEnvelope → Db → Result (Unit {0})
assert_event_signature host event db = do
  key ← find_executive_key event.actor_id event.base_server_sequence db
  guard (signature_holds host event key) (coded ErrorCode.bad_signature)

unfoldable pub assert_payload_hash : Host → ClientEventEnvelope → Result (Unit {0})
assert_payload_hash host event =
    guard (constant_time_equal host (payload_hash host event.encrypted_payload) event.payload_hash)
      (coded ErrorCode.bad_payload_hash)

-- What the statements know of the ceremony: its row, and the version of the executive's old key.
pub record Target : Type 0 where
  pub ceremony : CeremonyRow
  pub old_key_version : ℕ

module _ (s : RecoveryService) where
  -- All checks of the call, in their order; they read the database only.
  unfoldable pub check_execution :
      ExecuteRecoveryInput → ClientEventEnvelope → ClientEventEnvelope → Db → Result Target
  check_execution input performed rotated db = do
    ceremony ← get_ceremony input.ceremony_id db
    guard (is_threshold_met ceremony.status) (coded ErrorCode.approvals_required)
    assert_execution_event input performed EventType.recovery_performed ceremony.id
    executive ← get_executive ceremony.executive_id db
    assert_execution_event input rotated EventType.key_rotated
        (rotated_key_object_id ceremony.executive_id (executive.key_version + 1))
    assert_device_can_execute input.executor_device_id input.executed_by
        performed.device_event_counter db
    assert_device_can_execute input.executor_device_id input.executed_by
        rotated.device_event_counter db
    assert_consecutive_counters performed rotated
    assert_event_signature s.host performed db
    assert_event_signature s.host rotated db
    assert_payload_hash s.host performed
    assert_payload_hash s.host rotated
    ok (record { ceremony = ceremony; old_key_version = executive.key_version })
