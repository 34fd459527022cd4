-- ===== src/Examples/Enrollments.antt =====
-- The enrollment of a second device and the revocation of the first one.
use vorcaro_ledger.Ledger.Rows.{row_of, stringify_policy_metadata}
use vorcaro_ledger.Ledger.Append.{insert_ledger_event}
use vorcaro_ledger.Database.Insert.{accept_head, event_constraints, insert_event, upsert}
use vorcaro_ledger.Recovery.Ceremony.{bytes_le}
use vorcaro_ledger.Protocol.Spelling.{
  audit_category_text, error_code_text, event_status_text, event_type_text, object_type_text,
}
use vorcaro_ledger.Protocol.Json.{json_string}
use vorcaro_ledger.Protocol.Decimal.{decimal, decimal_ℤ}
use vorcaro_ledger.Protocol.Canonical.{
  canonicalize, entry_text, join_comma, object_text, optional_field,
}
use vorcaro_ledger.Audit.{audit_json, entry_hash, previous_audit_hash, write_audit_log}
use vorcaro_ledger.Prelude.Sort.{sort, insert}
use vorcaro_ledger.Ledger.Admission.{signature_holds}
use vorcaro_ledger.Recovery.Checks.{assert_event_signature, assert_payload_hash}
use vorcaro_ledger.Enrollment.Statements.{
  find_challenge, revoked_device_ids_of, revoke_device_row, insert_revocation_list, max_version,
  consume_challenge, consume_token, insert_device,
}
use vorcaro_ledger.Enrollment.Checks.{
  check_enrollment, get_usable_challenge, check_challenge,
  assert_enrollment_event_matches_challenge, assert_device_proof, proof_json,
}
use vorcaro_ledger.Protocol.Pattern.{
  is_nonempty, is_hash, is_base64, all_units, fraction_part, is_currency_code, is_digits,
  is_exchange_rate, is_rate_shape, is_zero_rate, skip_digits, strip_prefix, zero_fraction,
}
use vorcaro_ledger.Protocol.Schema.{
  parse_envelope, envelope_valid, policy_metadata_valid, absent_or, monetary_fields_complete,
  parse_unsigned_ack, unsigned_ack_valid, parse_server_ack,
}
use vorcaro_ledger.Database.Action.{◌>>=◌, transaction}
use vorcaro_ledger.Prelude.{
  true, some, none, [], ◌∷◌, Text, codes, length, ◌≡◌, refl, text_eq, find, filter_by, any,
  update_where,
}
use vorcaro_ledger.Prelude.Int.{pos}
use vorcaro_ledger.Protocol.Types.{
  ErrorCode, EventType, ObjectType, EventStatus, EventType-discrete, ObjectType-discrete,
}
use vorcaro_ledger.Protocol.Result.{ok, err, coded}
use vorcaro_ledger.Protocol.Envelope.{ClientEventEnvelope}
use vorcaro_ledger.Protocol.Crypto.{
  compute_ledger_hash, constant_time_equal, sha256_digest, verify_bytes,
  verify_client_event_signature, sign_bytes, canonical_bytes, payload_hash, sign_server_ack,
  canonical_event_bytes, metadata_json, unsigned_ack_json, unsigned_client_event,
}
use vorcaro_ledger.Protocol.Revocation.{
  RevocationList, parse_revocation_list, revocation_list_valid,
}
use vorcaro_ledger.Database.Tables.{Db, EnrollmentTokenRow, EnrollmentChallengeRow}
use vorcaro_ledger.Database.Returns.{Returns}
use vorcaro_ledger.Database.Select.{
  genesis_ledger_hash, find_executive_key, to_sql_integer, max_by, key_covers, later, find_device,
  next_server_sequence, max_sequence, previous_ledger_hash, latest_event,
}
use vorcaro_ledger.Ledger.Chain.{IsChain}
use vorcaro_ledger.Enrollment.Service.{
  PkiService, IssuedDeviceCertificate, CompleteEnrollmentInput, CompleteEnrollmentResult,
  BeginEnrollmentInput, EnrollmentChallenge, RevokeDeviceInput, is_expired, add_days,
}
use vorcaro_ledger.Enrollment.Tokens.{hash_enrollment_token, begin_enrollment, audit_as}
use vorcaro_ledger.Enrollment.Completion.{
  complete_enrollment, enrollment_statements, issue_certificate, append_enrollment_event,
  enrollment_ack, finish_enrollment, new_device,
}
use vorcaro_ledger.Enrollment.Revocation.{
  revoke_device, revocation_statements, write_revocation_list, sign_revocation_list,
  revocation_json,
}
use vorcaro_ledger.Enrollment.Errors.{complete_enrollment-err}
use vorcaro_ledger.Enrollment.Chain.{complete_enrollment-IsChain}
use vorcaro_ledger.Enrollment.Once.{complete_enrollment_once, begin_enrollment_once}
use vorcaro_ledger.Enrollment.Revoked.{Revoked, revoke_device-Revoked}
use vorcaro_ledger.Examples.Host.{plain-EncodesAscii, plain_host, key_of_64, key_of_32}
use vorcaro_ledger.Examples.Samples.{fresh_db, event_of}

abbrev certificate : IssuedDeviceCertificate
certificate = record {
  certificate_pem = codes "pem";
  certificate_fingerprint = codes "fp2";
  expires_at = codes "2026-01-08T08:00:00.000Z";
}

-- A text is a time by its length.
abbrev pub registrar : PkiService
registrar = record {
  host = plain_host;
  certificate_authority = record {
    issue_device_certificate = λ input. ok certificate;
    revoke_device_certificate = λ input. ok tt;
  };
  dates = record {
    parse = λ t. some (pos (length t));
    to_iso_string = λ n. ok (codes "2026-01-08T08:00:00.000Z");
  };
  server_signing_secret_key = key_of_64;
  now = codes "2026-01-01T08:00:00.000Z";
  random_uuid = codes "u";
  random_text = codes "r";
  device_certificate_lifetime_days = 7;
  enrollment_challenge_lifetime_minutes = 10;
}

abbrev tomorrow : Text
tomorrow = codes "2026-01-01T08:00:00.000+00:00"

abbrev token_row : EnrollmentTokenRow
token_row = record {
  token_hash = hash_enrollment_token registrar (codes "tok");
  executive_id = codes "e1";
  issued_by = codes "admin";
  expires_at = tomorrow;
  consumed_at = none;
}

abbrev challenge_row : EnrollmentChallengeRow
challenge_row = record {
  id = codes "enr_1";
  token_hash = hash_enrollment_token registrar (codes "tok");
  executive_id = codes "e1";
  device_id = codes "d2";
  public_key = key_of_32;
  challenge = codes "c";
  expires_at = tomorrow;
  consumed_at = none;
  created_at = codes "2026-01-01T08:00:00.000Z";
}

abbrev pub waiting_db : Db
waiting_db = record fresh_db {
  enrollment_tokens = token_row ∷ [];
  enrollment_challenges = challenge_row ∷ [];
}

abbrev enrollment_event : ClientEventEnvelope
enrollment_event = record (event_of (codes "ev1") 0 1) {
  event_type = EventType.device_enrolled;
  device_id = codes "d2";
  object_type = ObjectType.device;
  object_id = codes "d2";
}

abbrev pub enrollment : CompleteEnrollmentInput
enrollment = record {
  token = codes "tok";
  challenge_id = codes "enr_1";
  proof_signature = key_of_64;
  hardware_backed = true;
  enrollment_event = enrollment_event;
}

abbrev enrollment_result : CompleteEnrollmentResult
enrollment_result = record {
  certificate = certificate;
  acknowledgement = record {
    unsigned = record {
      event_id = codes "ev1";
      status = EventStatus.accepted;
      server_sequence = some 1;
      resulting_ledger_hash =
          some (compute_ledger_hash plain_host genesis_ledger_hash 1 enrollment_event);
      server_timestamp = codes "2026-01-01T08:00:00.000Z";
      error_code = none;
    };
    server_signature = key_of_64;
  };
}

abbrev enrolled_db : Db
enrolled_db = (complete_enrollment registrar enrollment waiting_db).1

enrollment_returns : (complete_enrollment registrar enrollment waiting_db).0 ≡ ok enrollment_result
unfolding complete_enrollment ◌>>=◌ parse_envelope envelope_valid is_nonempty policy_metadata_valid
    absent_or monetary_fields_complete is_hash is_base64 check_enrollment get_usable_challenge
    check_challenge find_challenge find text_eq constant_time_equal hash_enrollment_token
    sha256_digest is_expired assert_enrollment_event_matches_challenge EventType-discrete
    ObjectType-discrete assert_device_proof verify_bytes assert_event_signature find_executive_key
    to_sql_integer signature_holds max_by filter_by key_covers verify_client_event_signature later
    assert_payload_hash payload_hash transaction enrollment_statements issue_certificate add_days
    append_enrollment_event enrollment_ack sign_server_ack parse_unsigned_ack unsigned_ack_valid
    next_server_sequence max_sequence compute_ledger_hash previous_ledger_hash latest_event decimal
    canonical_event_bytes audit_json entry_hash previous_audit_hash write_audit_log accept_head
    event_constraints insert_event upsert proof_json finish_enrollment new_device consume_challenge
    consume_token insert_device audit_as insert_ledger_event row_of stringify_policy_metadata any
    update_where insert sort canonicalize entry_text join_comma object_text optional_field
    canonical_bytes metadata_json sign_bytes unsigned_ack_json unsigned_client_event decimal_ℤ
    json_string all_units fraction_part is_currency_code is_digits is_exchange_rate is_rate_shape
    is_zero_rate skip_digits strip_prefix zero_fraction parse_server_ack audit_category_text
    error_code_text event_status_text event_type_text object_type_text
enrollment_returns = refl

enrolls :
    Returns (complete_enrollment registrar enrollment) waiting_db enrollment_result enrolled_db
enrolls = record { value = enrollment_returns; state = refl }

complete_enrollment-IsChain_example : IsChain plain_host enrolled_db.ledger_events
complete_enrollment-IsChain_example = complete_enrollment-IsChain registrar enrollment waiting_db tt

complete_enrollment_once_example :
    ¬ Returns (complete_enrollment registrar enrollment) enrolled_db enrollment_result enrolled_db
complete_enrollment_once_example =
    complete_enrollment_once registrar enrollment waiting_db enrollment_result enrolled_db enrolls
      registrar enrollment enrollment_result enrolled_db refl

abbrev second_device : BeginEnrollmentInput
second_device = record { token = codes "tok"; device_id = codes "d3"; public_key = key_of_32 }

abbrev second_challenge : EnrollmentChallenge
second_challenge = record {
  challenge_id = codes "enr_u";
  challenge = codes "r";
  expires_at = tomorrow;
}

begin_enrollment_once_example :
    ¬ Returns (begin_enrollment registrar second_device) enrolled_db second_challenge enrolled_db
begin_enrollment_once_example =
    begin_enrollment_once registrar enrollment waiting_db enrollment_result enrolled_db
      plain-EncodesAscii enrolls registrar second_device second_challenge enrolled_db refl refl

abbrev revocation : RevokeDeviceInput
revocation = record { device_id = codes "d1"; revoked_by = codes "admin"; reason = codes "lost" }

abbrev first_list : RevocationList
first_list = record {
  version = 1;
  revoked_device_ids = codes "d1" ∷ [];
  revoked_key_versions = [];
  wipe_directives = [];
  issued_at = codes "2026-01-01T08:00:00.000Z";
  signature = key_of_64;
}

abbrev revoked_db : Db
revoked_db = (revoke_device registrar revocation fresh_db).1

revocation_returns : (revoke_device registrar revocation fresh_db).0 ≡ ok first_list
unfolding revoke_device ◌>>=◌ find_device find text_eq transaction revocation_statements
    write_revocation_list sign_revocation_list sign_bytes parse_revocation_list
    revocation_list_valid any revoked_device_ids_of sort filter_by revoke_device_row update_where
    audit_json entry_hash previous_audit_hash write_audit_log revocation_json insert_revocation_list
    max_version audit_as insert canonicalize entry_text join_comma object_text canonical_bytes
    sha256_digest decimal decimal_ℤ json_string is_base64 is_nonempty audit_category_text bytes_le
revocation_returns = refl

revoke_device-Revoked_example : Revoked registrar revocation fresh_db first_list revoked_db
revoke_device-Revoked_example =
    revoke_device-Revoked registrar revocation fresh_db first_list revoked_db
      (record { value = revocation_returns; state = refl })

unknown_throws :
    (complete_enrollment registrar enrollment fresh_db).0 ≡ err (coded ErrorCode.cert_unknown)
unfolding complete_enrollment ◌>>=◌ parse_envelope envelope_valid is_nonempty policy_metadata_valid
    absent_or monetary_fields_complete is_hash is_base64 check_enrollment get_usable_challenge
    check_challenge find_challenge find
unknown_throws = refl

complete_enrollment-err_example : (complete_enrollment registrar enrollment fresh_db).1 ≡ fresh_db
complete_enrollment-err_example =
    complete_enrollment-err registrar fresh_db (coded ErrorCode.cert_unknown) enrollment
      unknown_throws
