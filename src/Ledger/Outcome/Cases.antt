-- ===== src/Ledger/Outcome/Cases.antt =====
-- `appendNow` of server/src/ledger/appender.ts ends in one of the outcomes.
use vorcaro_ledger.Prelude.{
  is_defined, ◌<◌, Bool, true, false, Option, none, some, text_eq_iff, ◌≡◌, refl, arith, inl, inr,
  Bool-cases, ◌||◌, not, text_eq, leb, is_yes, if◌then◌else◌,
}
use vorcaro_ledger.Protocol.Types.{EventStatus, EventType, ErrorCode, EventType-discrete}
use vorcaro_ledger.Protocol.Result.{Result, ok, err, coded, Thrown, Result-cases}
use vorcaro_ledger.Protocol.Schema.{parse_envelope, envelope_valid}
use vorcaro_ledger.Protocol.Crypto.{
  verify_client_event_signature, payload_hash, constant_time_equal,
}
use vorcaro_ledger.Policy.Document.{PolicyDecision, allow, deny, require_approvals}
use vorcaro_ledger.Database.Tables.{
  Db, ExecutiveKeyRow, LedgerEventRow, DeviceStatus, ExecutiveStatus, is_enrolled, is_active,
}
use vorcaro_ledger.Database.Action.{lift, ◌>>=◌}
use vorcaro_ledger.Database.Select.{find_existing_event, find_executive_key}
use vorcaro_ledger.Ledger.Rows.{DeviceExecutiveRow, find_device_executive}
use vorcaro_ledger.Ledger.Append.{
  Appender, append_validated_event, append_rejected_event, sign_non_appended_ack,
}
use vorcaro_ledger.Ledger.Admission.{
  AppendEventRequest, signature_holds, is_conflicted, is_stale, admit_resolution, admit_change,
  admit_object, admit_decision, admit_signed, admit_device, admit_found, admit_new, append_now,
}
use vorcaro_ledger.Ledger.Effects.{append_validated_event-Appended, append_validated_event-err}
use vorcaro_ledger.Ledger.Outcome.{Authorised, Ruling, Outcome, policy_says, head_of, conflict_of}

module _ (a : Appender) (request : AppendEventRequest) (db : Db)
    (valid : envelope_valid a.host.is_datetime request.event ≡ true)
    (new : find_existing_event request.event.event_id db ≡ none) where
  append_validated_event-Outcome :
      (status : EventStatus) (code : Option ErrorCode)
      → Ruling a request db status code
      → Outcome a request db (append_validated_event a request.event status code db)
  append_validated_event-Outcome status code ruling =
      let r = append_validated_event a request.event status code db in
      elim (Result-cases r.0) [
        | inl (ack, returned) ↦
            Outcome.written status code ack r.1 valid new ruling
              (append_validated_event-Appended a request.event status code db (ground arith))
              (ground arith)
        | inr (t, threw) ↦
            Outcome.thrown t (append_validated_event-err a request.event status code db threw)
      ]

  append_rejected_event-Outcome :
      (code : ErrorCode) → Outcome a request db (append_rejected_event a request.event code db)
  unfolding append_rejected_event
  append_rejected_event-Outcome code =
      append_validated_event-Outcome EventStatus.rejected (some code)
        (Ruling.rejects code refl refl)

  sign_non_appended_ack-Outcome :
      (code : ErrorCode)
      → Outcome a request db (sign_non_appended_ack a request.event.event_id code, db)
  sign_non_appended_ack-Outcome code =
      elim (Result-cases (sign_non_appended_ack a request.event.event_id code)) [
        | inl (ack, returned) ↦ Outcome.refused code ack new returned (rw returned)
        | inr (t, threw) ↦ Outcome.thrown t (rw threw)
      ]

  module _ (auth : Authorised a request db)
      (allowed : policy_says a request db auth.device ≡ ok allow) where
    admit_resolution-Outcome :
        request.event.event_type ≡ EventType.conflict_resolved
        → Outcome a request db
            (admit_resolution a request.event (head_of a request db) (conflict_of a request db) db)
    unfolding admit_resolution
    admit_resolution-Outcome resolution = elim (Bool-cases (is_conflicted (head_of a request db))) [
      | inl marked ↦ elim (Bool-cases (is_defined (conflict_of a request db))) [
        | inl listed ↦
            rw (marked, listed)
              (append_validated_event-Outcome EventStatus.accepted none
                (Ruling.resolves auth allowed resolution marked listed refl refl))
        | inr unlisted ↦ rw (marked, unlisted) (append_rejected_event-Outcome ErrorCode.conflict)
      ]
      | inr unmarked ↦ rw unmarked (append_rejected_event-Outcome ErrorCode.conflict)
    ]

    admit_change-Outcome :
        ¬ (request.event.event_type ≡ EventType.conflict_resolved)
        → Outcome a request db (admit_change a request.event (head_of a request db) db)
    unfolding admit_change
    admit_change-Outcome change = elim (Bool-cases (is_conflicted (head_of a request db))) [
      | inl marked ↦ rw marked (append_rejected_event-Outcome ErrorCode.policy_denied)
      | inr unmarked ↦ elim (Bool-cases (is_stale request.event (head_of a request db))) [
        | inl stale ↦
            rw (unmarked, stale)
              (append_validated_event-Outcome EventStatus.conflicted (some ErrorCode.conflict)
                (Ruling.collides auth allowed change unmarked stale refl refl))
        | inr current ↦
            rw (unmarked, current)
              (append_validated_event-Outcome EventStatus.accepted none
                (Ruling.changes auth allowed change unmarked current refl refl))
      ]
    ]

    admit_object-Outcome : Outcome a request db (admit_object a request.event db)
    unfolding ◌>>=◌ admit_object
    admit_object-Outcome =
        elim (EventType-discrete request.event.event_type EventType.conflict_resolved)
          as (λ d. Outcome a request db (
            (if is_yes d
                then admit_resolution a request.event (head_of a request db)
                    (conflict_of a request db)
                else admit_change a request.event (head_of a request db))
              db)) [
                | yes resolution ↦ admit_resolution-Outcome resolution
                | no change ↦ admit_change-Outcome change
              ]

  admit_decision-Outcome :
      (auth : Authorised a request db) (decision : Result PolicyDecision)
      → policy_says a request db auth.device ≡ decision
      → Outcome a request db (admit_decision a request.event decision db)
  unfolding admit_decision
  admit_decision-Outcome auth (ok allow) said = admit_object-Outcome auth said
  admit_decision-Outcome auth (ok (deny code)) said = append_rejected_event-Outcome code
  admit_decision-Outcome auth (ok (require_approvals roles count)) said =
      append_validated_event-Outcome EventStatus.pending (some ErrorCode.approvals_required)
        (Ruling.waits auth roles count said refl refl)
  admit_decision-Outcome auth (err (coded code)) said = append_rejected_event-Outcome code
  admit_decision-Outcome auth (err Thrown.zod_error) said = Outcome.thrown Thrown.zod_error refl
  admit_decision-Outcome auth (err Thrown.range_error) said = Outcome.thrown Thrown.range_error refl
  admit_decision-Outcome auth (err Thrown.type_error) said = Outcome.thrown Thrown.type_error refl
  admit_decision-Outcome auth (err Thrown.sql_error) said = Outcome.thrown Thrown.sql_error refl
  admit_decision-Outcome auth (err Thrown.plain_error) said = Outcome.thrown Thrown.plain_error refl

  -- What the checks on the device have shown.
  record DeviceChecked (device : DeviceExecutiveRow) : Type 0 where
    device_found : find_device_executive request.event.device_id db ≡ some device
    same_certificate : device.certificate_fingerprint ≡ request.certificate_fingerprint
    device_enrolled : device.device_status ≡ DeviceStatus.enrolled
    own_device : device.executive_id ≡ request.event.actor_id
    executive_active : device.executive_status ≡ ExecutiveStatus.active
    fresh : device.max_event_counter < request.event.device_event_counter

  module _ (device : DeviceExecutiveRow) (checked : DeviceChecked device) where
    admit_signed-Outcome :
        (key : Option ExecutiveKeyRow)
        → find_executive_key request.event.actor_id request.event.base_server_sequence db ≡ ok key
        → Outcome a request db (admit_signed a request.event device key db)
    unfolding admit_signed signature_holds
    admit_signed-Outcome none found = append_rejected_event-Outcome ErrorCode.bad_signature
    admit_signed-Outcome (some key) found =
        elim (Bool-cases
          (verify_client_event_signature a.host request.event key.signing_public_key)) [
            | inr unsigned ↦ rw unsigned (append_rejected_event-Outcome ErrorCode.bad_signature)
            | inl signed ↦
                elim (Bool-cases (
                  constant_time_equal a.host (payload_hash a.host request.event.encrypted_payload)
                    request.event.payload_hash)) [
                      | inr altered ↦
                          rw (signed, altered)
                            (append_rejected_event-Outcome ErrorCode.bad_payload_hash)
                      | inl intact ↦
                          rw (signed, intact)
                            (admit_decision-Outcome
                              (record {
                                device = device;
                                key = key;
                                device_found = checked.device_found;
                                same_certificate = checked.same_certificate;
                                device_enrolled = checked.device_enrolled;
                                own_device = checked.own_device;
                                executive_active = checked.executive_active;
                                fresh = checked.fresh;
                                key_found = found;
                                signed = signed;
                                payload_intact = intact;
                              })
                              (policy_says a request db device) refl)
                    ]
          ]

    admit_key-Outcome :
        (found : Result (Option ExecutiveKeyRow))
        → find_executive_key request.event.actor_id request.event.base_server_sequence db ≡ found
        → Outcome a request db ((lift found >>= λ key. admit_signed a request.event device key) db)
    unfolding ◌>>=◌
    admit_key-Outcome (ok key) found = admit_signed-Outcome key found
    admit_key-Outcome (err e) found = Outcome.thrown e refl

  abbrev wrong_device : DeviceExecutiveRow → Bool
  wrong_device device =
      not (text_eq device.certificate_fingerprint request.certificate_fingerprint)
      || not (is_enrolled device.device_status)

  abbrev wrong_executive : DeviceExecutiveRow → Bool
  wrong_executive device =
      not (text_eq device.executive_id request.event.actor_id)
      || not (is_active device.executive_status)

  device_checks :
      (device : DeviceExecutiveRow)
      → find_device_executive request.event.device_id db ≡ some device
      → wrong_device device ≡ false
      → wrong_executive device ≡ false
      → leb request.event.device_event_counter device.max_event_counter ≡ false
      → DeviceChecked device
  device_checks device found right own newer = record {
    device_found = found;
    same_certificate =
        ground (arith, text_eq_iff device.certificate_fingerprint request.certificate_fingerprint);
    device_enrolled = ground arith;
    own_device = ground (arith, text_eq_iff device.executive_id request.event.actor_id);
    executive_active = ground arith;
    fresh = ground arith;
  }

  admit_device-Outcome :
      (device : DeviceExecutiveRow)
      → find_device_executive request.event.device_id db ≡ some device
      → Outcome a request db
          (admit_device a request.event request.certificate_fingerprint device db)
  unfolding admit_device
  admit_device-Outcome device found = elim (Bool-cases (wrong_device device)) [
    | inl wrong ↦ rw wrong (append_rejected_event-Outcome ErrorCode.cert_revoked)
    | inr right ↦ elim (Bool-cases (wrong_executive device)) [
      | inl wrong ↦ rw (right, wrong) (append_rejected_event-Outcome ErrorCode.executive_inactive)
      | inr own ↦
          elim (Bool-cases (leb request.event.device_event_counter device.max_event_counter)) [
            | inl old ↦
                rw (right, own, old) (sign_non_appended_ack-Outcome ErrorCode.replay_counter)
            | inr newer ↦
                rw (right, own, newer)
                  (admit_key-Outcome device (device_checks device found right own newer)
                    (find_executive_key request.event.actor_id request.event.base_server_sequence
                      db)
                    refl)
          ]
    ]
  ]

  admit_found-Outcome :
      (device : Option DeviceExecutiveRow)
      → find_device_executive request.event.device_id db ≡ device
      → Outcome a request db (admit_found a request.event request.certificate_fingerprint device db)
  unfolding admit_found
  admit_found-Outcome none found = sign_non_appended_ack-Outcome ErrorCode.cert_unknown
  admit_found-Outcome (some device) found = admit_device-Outcome device found

module _ (a : Appender) (request : AppendEventRequest) (db : Db) where
  admit_new-Outcome :
      envelope_valid a.host.is_datetime request.event ≡ true
      → (existing : Option LedgerEventRow)
      → find_existing_event request.event.event_id db ≡ existing
      → Outcome a request db (admit_new a request.event request.certificate_fingerprint existing db)
  unfolding ◌>>=◌ admit_new
  admit_new-Outcome valid none new =
      admit_found-Outcome a request db valid new (find_device_executive request.event.device_id db)
        refl
  admit_new-Outcome valid (some row) seen = Outcome.repeated row seen refl

  pub append_now-Outcome : Outcome a request db (append_now a request db)
  unfolding ◌>>=◌ append_now parse_envelope
  append_now-Outcome = elim (Bool-cases (envelope_valid a.host.is_datetime request.event)) [
    | inl valid ↦
        rw valid (admit_new-Outcome valid (find_existing_event request.event.event_id db) refl)
    | inr invalid ↦ rw invalid (Outcome.thrown Thrown.zod_error refl)
  ]
