-- ===== src/Ledger/Admission.antt =====
-- `appendNow` of server/src/ledger/appender.ts: the checks on an event, in their order.
use vorcaro_ledger.Prelude.{
  Bool, false, ◌||◌, not, Option, none, some, Text, text_eq, ltb, leb, is_defined, if◌then◌else◌,
}
use vorcaro_ledger.Protocol.Types.{EventStatus, EventType, ErrorCode, event_type_eq}
use vorcaro_ledger.Protocol.Result.{Result, ok, err, coded}
use vorcaro_ledger.Protocol.Envelope.{ClientEventEnvelope, ServerAck}
use vorcaro_ledger.Protocol.Schema.{parse_envelope}
use vorcaro_ledger.Protocol.Crypto.{
  Host, verify_client_event_signature, payload_hash, constant_time_equal,
}
use vorcaro_ledger.Policy.Document.{
  PolicyDecision, PolicyDocument, PolicyEvaluationContext, allow, deny, require_approvals,
}
use vorcaro_ledger.Policy.Engine.{evaluate}
use vorcaro_ledger.Database.Tables.{
  Db, ExecutiveKeyRow, ObjectHeadRow, ConflictRow, LedgerEventRow, is_enrolled, is_active,
}
use vorcaro_ledger.Database.Action.{Action, pure, lift, gets, throw, ◌>>=◌}
use vorcaro_ledger.Database.Select.{
  find_existing_event, find_executive_key, find_object_head, find_open_conflict,
}
use vorcaro_ledger.Ledger.Rows.{
  DeviceExecutiveRow, find_device_executive, read_active_policy, row_to_ack,
}
use vorcaro_ledger.Ledger.Append.{
  Appender, append_validated_event, append_rejected_event, sign_non_appended_ack,
}

pub record AppendEventRequest : Type 0 where
  pub event : ClientEventEnvelope
  pub certificate_fingerprint : Text

unfoldable pub evaluate_found :
    Host
    → ClientEventEnvelope
    → PolicyEvaluationContext
    → Option PolicyDocument
    → Result PolicyDecision
evaluate_found host event context none = ok allow
evaluate_found host event context (some policy) = evaluate host policy event context

-- `evaluateActivePolicy`
unfoldable pub evaluate_active_policy :
    Host → Db → ClientEventEnvelope → PolicyEvaluationContext → Result PolicyDecision
evaluate_active_policy host db event context = elim (read_active_policy db) [
  | err e ↦ err e
  | ok policy ↦ evaluate_found host event context policy
]

unfoldable pub signature_holds : Host → ClientEventEnvelope → Option ExecutiveKeyRow → Bool
signature_holds host event none = false
signature_holds host event (some key) =
    verify_client_event_signature host event key.signing_public_key

unfoldable pub is_conflicted : Option ObjectHeadRow → Bool
is_conflicted none = false
is_conflicted (some head) = head.conflicted

-- Another event was accepted on the object after the state that the event was made on.
unfoldable pub is_stale : ClientEventEnvelope → Option ObjectHeadRow → Bool
is_stale event none = false
is_stale event (some head) = ltb event.base_server_sequence head.head_sequence

unfoldable pub context_of : DeviceExecutiveRow → PolicyEvaluationContext
context_of device = record {
  actor_role = device.executive_role;
  risk_score = some device.risk_score;
}

module _ (a : Appender) where
  unfoldable pub admit_resolution :
      ClientEventEnvelope → Option ObjectHeadRow → Option ConflictRow → Action ServerAck
  admit_resolution event head conflict =
      if not (is_conflicted head) || not (is_defined conflict)
      then append_rejected_event a event ErrorCode.conflict
      else append_validated_event a event EventStatus.accepted none

  unfoldable pub admit_change : ClientEventEnvelope → Option ObjectHeadRow → Action ServerAck
  admit_change event head =
      if is_conflicted head
      then append_rejected_event a event ErrorCode.policy_denied
      else if is_stale event head
      then append_validated_event a event EventStatus.conflicted (some ErrorCode.conflict)
      else append_validated_event a event EventStatus.accepted none

  unfoldable pub admit_object : ClientEventEnvelope → Action ServerAck
  admit_object event = do
    head ← gets (find_object_head event.object_type event.object_id)
    conflict ← gets (find_open_conflict event.object_type event.object_id)
    if event_type_eq event.event_type EventType.conflict_resolved
        then admit_resolution event head conflict
        else admit_change event head

  -- An error of the policy engine rejects the event; any other is thrown on.
  unfoldable pub admit_decision : ClientEventEnvelope → Result PolicyDecision → Action ServerAck
  admit_decision event (err (coded error_code)) = append_rejected_event a event error_code
  admit_decision event (err e) = throw e
  admit_decision event (ok (deny error_code)) = append_rejected_event a event error_code
  admit_decision event (ok (require_approvals roles count)) =
      append_validated_event a event EventStatus.pending (some ErrorCode.approvals_required)
  admit_decision event (ok allow) = admit_object event

  unfoldable pub admit_signed :
      ClientEventEnvelope → DeviceExecutiveRow → Option ExecutiveKeyRow → Action ServerAck
  admit_signed event device key =
      if not (signature_holds a.host event key)
      then append_rejected_event a event ErrorCode.bad_signature
      else if not (
          constant_time_equal a.host (payload_hash a.host event.encrypted_payload)
            event.payload_hash)
      then append_rejected_event a event ErrorCode.bad_payload_hash
      else (λ db.
          admit_decision event (evaluate_active_policy a.host db event (context_of device)) db)

  unfoldable pub admit_device : ClientEventEnvelope → Text → DeviceExecutiveRow → Action ServerAck
  admit_device event certificate_fingerprint device =
      if not (text_eq device.certificate_fingerprint certificate_fingerprint)
        || not (is_enrolled device.device_status)
      then append_rejected_event a event ErrorCode.cert_revoked
      else if not (text_eq device.executive_id event.actor_id)
          || not (is_active device.executive_status)
      then append_rejected_event a event ErrorCode.executive_inactive
      else if leb event.device_event_counter device.max_event_counter
      then lift (sign_non_appended_ack a event.event_id ErrorCode.replay_counter)
      else (λ db.
          (do
            key ← lift (find_executive_key event.actor_id event.base_server_sequence db)
            admit_signed event device key)
            db)

  unfoldable pub admit_found :
      ClientEventEnvelope → Text → Option DeviceExecutiveRow → Action ServerAck
  admit_found event certificate_fingerprint none =
      lift (sign_non_appended_ack a event.event_id ErrorCode.cert_unknown)
  admit_found event certificate_fingerprint (some device) =
      admit_device event certificate_fingerprint device

  unfoldable pub admit_new : ClientEventEnvelope → Text → Option LedgerEventRow → Action ServerAck
  admit_new event certificate_fingerprint (some existing) = pure (row_to_ack existing)
  admit_new event certificate_fingerprint none = do
    device ← gets (find_device_executive event.device_id)
    admit_found event certificate_fingerprint device

  unfoldable pub append_now : AppendEventRequest → Action ServerAck
  append_now request = do
    event ← lift (parse_envelope a.host.is_datetime request.event)
    existing ← gets (find_existing_event event.event_id)
    admit_new event request.certificate_fingerprint existing
