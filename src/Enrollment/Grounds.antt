-- ===== src/Enrollment/Grounds.antt =====
-- What an enrollment that `completeEnrollment` of server/src/pki/enrollment.ts returns rests on.
use vorcaro_ledger.Prelude.{
  Bool, true, false, Option, none, some, Text, text_eq_iff, ◌≡◌, refl, subst, arith,
}
use vorcaro_ledger.Protocol.Types.{EventType, ObjectType}
use vorcaro_ledger.Protocol.Result.{Thrown, ok, guard, bind_ok}
use vorcaro_ledger.Protocol.Envelope.{ClientEventEnvelope}
use vorcaro_ledger.Protocol.Crypto.{
  constant_time_equal, canonical_bytes, verify_bytes, payload_hash,
}
use vorcaro_ledger.Database.Tables.{Db, ExecutiveKeyRow, EnrollmentChallengeRow}
use vorcaro_ledger.Database.Select.{find_executive_key}
use vorcaro_ledger.Ledger.Admission.{signature_holds}
use vorcaro_ledger.Recovery.Checks.{assert_event_signature, assert_payload_hash}
use vorcaro_ledger.Enrollment.Service.{PkiService, CompleteEnrollmentInput, is_expired}
use vorcaro_ledger.Enrollment.Statements.{find_challenge}
use vorcaro_ledger.Enrollment.Tokens.{hash_enrollment_token}
use vorcaro_ledger.Enrollment.Checks.{
  assert_enrollment_event_matches_challenge, proof_json, check_challenge, get_usable_challenge,
  assert_device_proof, check_enrollment,
}

-- The challenge was found, is neither used nor expired, belongs to the token, was signed by the
-- device's key, and the event is an enrollment of its device that its executive signed.
pub record Warrant (s : PkiService) (input : CompleteEnrollmentInput) (event : ClientEventEnvelope)
    (db : Db) (challenge : EnrollmentChallengeRow) : Type 0 where
  pub found : find_challenge input.challenge_id db ≡ some challenge
  pub unused : challenge.consumed_at ≡ none
  pub unexpired : is_expired s.dates challenge.expires_at s.now ≡ false
  pub of_token :
      constant_time_equal s.host challenge.token_hash (hash_enrollment_token s input.token) ≡ true
  pub proven :
      verify_bytes s.host
        (canonical_bytes s.host (proof_json challenge))
        input.proof_signature
        challenge.public_key
      ≡ true
  pub is_enrollment : event.event_type ≡ EventType.device_enrolled
  pub by_executive : event.actor_id ≡ challenge.executive_id
  pub from_device : event.device_id ≡ challenge.device_id
  pub object_is_device : event.object_type ≡ ObjectType.device
  pub of_device : event.object_id ≡ challenge.device_id
  pub key : Option ExecutiveKeyRow
  pub key_found : find_executive_key event.actor_id event.base_server_sequence db ≡ ok key
  pub signed : signature_holds s.host event key ≡ true
  pub hashed :
      constant_time_equal s.host (payload_hash s.host event.encrypted_payload) event.payload_hash
      ≡ true

module _ (s : PkiService) where
  challenge_found :
      (token_hash : Text) (o : Option EnrollmentChallengeRow) (challenge : EnrollmentChallengeRow)
      → check_challenge s token_hash o ≡ ok challenge
      → (o ≡ some challenge)
        × (challenge.consumed_at ≡ none)
        × (is_expired s.dates challenge.expires_at s.now ≡ false)
        × (constant_time_equal s.host challenge.token_hash token_hash ≡ true)
  unfolding check_challenge
  challenge_found token_hash none challenge h = absurd (cc)
  challenge_found token_hash (some c) challenge h = ground (arith, h)

  event_matches :
      (event : ClientEventEnvelope) (challenge : EnrollmentChallengeRow) (u : Unit {0})
      → assert_enrollment_event_matches_challenge event challenge ≡ ok u
      → (event.event_type ≡ EventType.device_enrolled)
        × (event.actor_id ≡ challenge.executive_id)
        × (event.device_id ≡ challenge.device_id)
        × (event.object_type ≡ ObjectType.device)
        × (event.object_id ≡ challenge.device_id)
  unfolding assert_enrollment_event_matches_challenge
  event_matches event challenge u h = ground (
    arith,
    h,
    text_eq_iff event.actor_id challenge.executive_id,
    text_eq_iff event.device_id challenge.device_id,
    text_eq_iff event.object_id challenge.device_id,
  )

  -- A guard that let a call through.
  passed : (b : Bool) (e : Thrown) (u : Unit {0}) → guard b e ≡ ok u → b ≡ true
  passed true e u h = refl
  passed false e u h = absurd (cc)

  pub check_enrollment-Warrant :
      (input : CompleteEnrollmentInput) (event : ClientEventEnvelope) (db : Db)
      (challenge : EnrollmentChallengeRow)
      → check_enrollment s input event db ≡ ok challenge
      → Warrant s input event db challenge
  unfolding check_enrollment get_usable_challenge assert_device_proof assert_event_signature
      assert_payload_hash
  check_enrollment-Warrant input event db challenge h =
      let (c, usable, h1) =
        bind_ok
          (check_challenge s (hash_enrollment_token s input.token)
            (find_challenge input.challenge_id db))
          _ challenge h in
      let (found, unused, unexpired, of_token) =
        challenge_found (hash_enrollment_token s input.token) (find_challenge input.challenge_id db)
          c usable in
      let (u, matched, h2) =
        bind_ok (assert_enrollment_event_matches_challenge event c) _ challenge h1 in
      let (kind, executive, device, object, id) = event_matches event c u matched in
      let (v, proof, h3) = bind_ok (assert_device_proof s input.proof_signature c) _ challenge h2 in
      let (w, signature, h4) = bind_ok (assert_event_signature s.host event db) _ challenge h3 in
      let (key, key_found, verified) =
        bind_ok (find_executive_key event.actor_id event.base_server_sequence db) _ w signature in
      let (z, payload, h5) = bind_ok (assert_payload_hash s.host event) _ challenge h4 in
      let same : c ≡ challenge = cc in
      subst (Warrant s input event db) same (record {
        found = found;
        unused = unused;
        unexpired = unexpired;
        of_token = of_token;
        proven = passed _ _ v proof;
        is_enrollment = kind;
        by_executive = executive;
        from_device = device;
        object_is_device = object;
        of_device = id;
        key = key;
        key_found = key_found;
        signed = passed _ _ w verified;
        hashed = passed _ _ z payload;
      })
