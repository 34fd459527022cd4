-- ===== src/Enrollment/Checks.antt =====
-- The checks of `completeEnrollment` of server/src/pki/enrollment.ts. Its checks of the event's
-- signature and payload hash are those of server/src/recovery/service.ts, word by word.
use vorcaro_ledger.Prelude.{
  not, ◌&&◌, ◌||◌, Option, none, some, Text, codes, text_eq, is_defined, if◌then◌else◌,
}
use vorcaro_ledger.Protocol.Types.{EventType, ObjectType, ErrorCode, event_type_eq, object_type_eq}
use vorcaro_ledger.Protocol.Result.{Result, ok, err, coded, guard, ◌>>=◌, ◌>>◌}
use vorcaro_ledger.Protocol.Canonical.{CanonicalJson, str, obj, end, field}
use vorcaro_ledger.Protocol.Envelope.{ClientEventEnvelope}
use vorcaro_ledger.Protocol.Crypto.{constant_time_equal, canonical_bytes, verify_bytes}
use vorcaro_ledger.Database.Tables.{Db, EnrollmentChallengeRow}
use vorcaro_ledger.Enrollment.Service.{PkiService, CompleteEnrollmentInput, is_expired}
use vorcaro_ledger.Enrollment.Statements.{find_challenge}
use vorcaro_ledger.Recovery.Checks.{assert_event_signature, assert_payload_hash}
use vorcaro_ledger.Enrollment.Tokens.{hash_enrollment_token}

unfoldable pub assert_enrollment_event_matches_challenge :
    ClientEventEnvelope → EnrollmentChallengeRow → Result (Unit {0})
assert_enrollment_event_matches_challenge event challenge =
    guard
      (event_type_eq event.event_type EventType.device_enrolled
        && text_eq event.actor_id challenge.executive_id
        && text_eq event.device_id challenge.device_id
        && object_type_eq event.object_type ObjectType.device
        && text_eq event.object_id challenge.device_id)
      (coded ErrorCode.schema_invalid)

unfoldable pub proof_json : EnrollmentChallengeRow → CanonicalJson
proof_json challenge = obj (
    field (codes "challenge_id") (str challenge.id) (
      field (codes "challenge") (str challenge.challenge) (
        field (codes "device_id") (str challenge.device_id)
          (field (codes "public_key") (str challenge.public_key) end))))

module _ (s : PkiService) where
  unfoldable pub check_challenge :
      Text → Option EnrollmentChallengeRow → Result EnrollmentChallengeRow
  check_challenge token_hash none = err (coded ErrorCode.cert_unknown)
  check_challenge token_hash (some challenge) =
      if not (constant_time_equal s.host challenge.token_hash token_hash)
      then err (coded ErrorCode.cert_unknown)
      else if is_defined challenge.consumed_at || is_expired s.dates challenge.expires_at s.now
      then err (coded ErrorCode.policy_denied)
      else ok challenge

  unfoldable pub get_usable_challenge : Text → Text → Db → Result EnrollmentChallengeRow
  get_usable_challenge challenge_id token_hash db =
      check_challenge token_hash (find_challenge challenge_id db)

  unfoldable pub assert_device_proof : Text → EnrollmentChallengeRow → Result (Unit {0})
  assert_device_proof proof_signature challenge =
      guard
        (verify_bytes s.host (canonical_bytes s.host (proof_json challenge)) proof_signature
          challenge.public_key)
        (coded ErrorCode.bad_signature)

  -- The checks before the transaction; they read the database only.
  unfoldable pub check_enrollment :
      CompleteEnrollmentInput → ClientEventEnvelope → Db → Result EnrollmentChallengeRow
  check_enrollment input event db = do
    challenge ← get_usable_challenge input.challenge_id (hash_enrollment_token s input.token) db
    assert_enrollment_event_matches_challenge event challenge
    assert_device_proof input.proof_signature challenge
    assert_event_signature s.host event db
    assert_payload_hash s.host event
    ok challenge
