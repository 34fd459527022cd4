-- ===== src/Ledger/Outcome.antt =====
-- Every way in which `appendNow` of server/src/ledger/appender.ts can end, with what each tells of
-- the request and of the database.
pub mod Cases
use vorcaro_ledger.Prelude.{
  ℕ, is_defined, ◌<◌, Bool, true, false, Option, none, some, List, Text, text_eq_iff, ◌≡◌, refl,
  arith, inl, inr, Bool-cases, Option-cases, ◌||◌, not, text_eq, leb, is_yes, if◌then◌else◌,
}
use vorcaro_ledger.Protocol.Types.{
  EventStatus, EventType, ErrorCode, Role, event_type_eq, EventType-discrete,
}
use vorcaro_ledger.Protocol.Result.{Result, ok, err, coded, Thrown, Result-cases}
use vorcaro_ledger.Protocol.Envelope.{ClientEventEnvelope, ServerAck}
use vorcaro_ledger.Protocol.Schema.{parse_envelope, envelope_valid}
use vorcaro_ledger.Protocol.Crypto.{
  verify_client_event_signature, payload_hash, constant_time_equal,
}
use vorcaro_ledger.Policy.Document.{PolicyDecision, allow, deny, require_approvals}
use vorcaro_ledger.Database.Tables.{
  Db, ExecutiveKeyRow, ObjectHeadRow, ConflictRow, LedgerEventRow, DeviceStatus, ExecutiveStatus,
  is_enrolled, is_active,
}
use vorcaro_ledger.Database.Action.{transaction}
use vorcaro_ledger.Database.Select.{
  find_existing_event, find_executive_key, find_object_head, find_open_conflict,
}
use vorcaro_ledger.Ledger.Rows.{
  DeviceExecutiveRow, find_device_executive, read_active_policy, row_to_ack,
}
use vorcaro_ledger.Ledger.Append.{
  Appender, append_validated_event, append_rejected_event, sign_non_appended_ack,
}
use vorcaro_ledger.Ledger.Admission.{
  AppendEventRequest, evaluate_active_policy, signature_holds, is_conflicted, is_stale, context_of,
  admit_resolution, admit_change, admit_object, admit_decision, admit_signed, admit_device,
  admit_found, admit_new, append_now,
}
use vorcaro_ledger.Ledger.Effects.{
  Appended, append_validated_event-Appended, append_validated_event-err,
}

module _ (a : Appender) (request : AppendEventRequest) (db : Db) where
  -- The device, its executive and the key all stand behind the event.
  pub record Authorised : Type 0 where
    pub device : DeviceExecutiveRow
    pub key : ExecutiveKeyRow
    pub device_found : find_device_executive request.event.device_id db ≡ some device
    pub same_certificate : device.certificate_fingerprint ≡ request.certificate_fingerprint
    pub device_enrolled : device.device_status ≡ DeviceStatus.enrolled
    pub own_device : device.executive_id ≡ request.event.actor_id
    pub executive_active : device.executive_status ≡ ExecutiveStatus.active
    pub fresh : device.max_event_counter < request.event.device_event_counter
    pub key_found :
        find_executive_key request.event.actor_id request.event.base_server_sequence db
        ≡ ok (some key)
    pub signed : verify_client_event_signature a.host request.event key.signing_public_key ≡ true
    pub payload_intact :
        constant_time_equal a.host
          (payload_hash a.host request.event.encrypted_payload)
          request.event.payload_hash
        ≡ true

  abbrev pub policy_says : DeviceExecutiveRow → Result PolicyDecision
  policy_says device = evaluate_active_policy a.host db request.event (context_of device)

  abbrev pub head_of : Option ObjectHeadRow
  head_of = find_object_head request.event.object_type request.event.object_id db

  abbrev pub conflict_of : Option ConflictRow
  conflict_of = find_open_conflict request.event.object_type request.event.object_id db

  -- Why an event is written with a status.
  pub data Ruling (status : EventStatus) (error_code : Option ErrorCode) : Type 0 where
    rejects :
        (code : ErrorCode)
        → status ≡ EventStatus.rejected
        → error_code ≡ some code
        → Ruling status error_code
    waits :
        (auth : Authorised) (roles : List Role) (count : ℕ)
        → policy_says auth.device ≡ ok (require_approvals roles count)
        → status ≡ EventStatus.pending
        → error_code ≡ some ErrorCode.approvals_required
        → Ruling status error_code
    resolves :
        (auth : Authorised)
        → policy_says auth.device ≡ ok allow
        → request.event.event_type ≡ EventType.conflict_resolved
        → is_conflicted head_of ≡ true
        → is_defined conflict_of ≡ true
        → status ≡ EventStatus.accepted
        → error_code ≡ none
        → Ruling status error_code
    changes :
        (auth : Authorised)
        → policy_says auth.device ≡ ok allow
        → ¬ (request.event.event_type ≡ EventType.conflict_resolved)
        → is_conflicted head_of ≡ false
        → is_stale request.event head_of ≡ false
        → status ≡ EventStatus.accepted
        → error_code ≡ none
        → Ruling status error_code
    collides :
        (auth : Authorised)
        → policy_says auth.device ≡ ok allow
        → ¬ (request.event.event_type ≡ EventType.conflict_resolved)
        → is_conflicted head_of ≡ false
        → is_stale request.event head_of ≡ true
        → status ≡ EventStatus.conflicted
        → error_code ≡ some ErrorCode.conflict
        → Ruling status error_code

  pub data Outcome (r : Result ServerAck × Db) : Type 0 where
    thrown : (e : Thrown) → r ≡ (err e, db) → Outcome r
    repeated :
        (row : LedgerEventRow)
        → find_existing_event request.event.event_id db ≡ some row
        → r ≡ (ok (row_to_ack row), db)
        → Outcome r
    refused :
        (code : ErrorCode) (ack : ServerAck)
        → find_existing_event request.event.event_id db ≡ none
        → sign_non_appended_ack a request.event.event_id code ≡ ok ack
        → r ≡ (ok ack, db)
        → Outcome r
    written :
        (status : EventStatus) (code : Option ErrorCode) (ack : ServerAck) (db' : Db)
        → envelope_valid a.host.is_datetime request.event ≡ true
        → find_existing_event request.event.event_id db ≡ none
        → Ruling status code
        → Appended a request.event status code db ack db'
        → r ≡ (ok ack, db')
        → Outcome r
