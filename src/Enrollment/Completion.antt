-- ===== src/Enrollment/Completion.antt =====
-- `completeEnrollment` of server/src/pki/enrollment.ts.
use vorcaro_ledger.Prelude.{ℕ, Bool, none, some, Text, codes}
use vorcaro_ledger.Protocol.Types.{EventStatus, AuditCategory}
use vorcaro_ledger.Protocol.Result.{Result, ok, err}
use vorcaro_ledger.Protocol.Canonical.{str, end, field}
use vorcaro_ledger.Protocol.Envelope.{ClientEventEnvelope, ServerAck}
use vorcaro_ledger.Protocol.Schema.{parse_envelope}
use vorcaro_ledger.Protocol.Crypto.{compute_ledger_hash, sign_server_ack}
use vorcaro_ledger.Database.Tables.{Db, DeviceRow, DeviceStatus, EnrollmentChallengeRow}
use vorcaro_ledger.Database.Action.{
  Action, pure, lift, gets, modify, attempt, transaction, ◌>>=◌, ◌>>◌,
}
use vorcaro_ledger.Database.Select.{next_server_sequence, previous_ledger_hash, to_sql_integer}
use vorcaro_ledger.Database.Insert.{accept_head}
use vorcaro_ledger.Ledger.Append.{insert_ledger_event}
use vorcaro_ledger.Enrollment.Service.{
  PkiService, IssuedDeviceCertificate, CompleteEnrollmentInput, CompleteEnrollmentResult, add_days,
}
use vorcaro_ledger.Enrollment.Statements.{insert_device, consume_token, consume_challenge}
use vorcaro_ledger.Enrollment.Checks.{check_enrollment}
use vorcaro_ledger.Enrollment.Tokens.{audit_as}

module _ (s : PkiService) where
  unfoldable pub enrollment_ack : ClientEventEnvelope → ℕ → Text → Result ServerAck
  enrollment_ack event sequence hash =
      sign_server_ack s.host
        (record {
          event_id = event.event_id;
          status = EventStatus.accepted;
          server_sequence = some sequence;
          resulting_ledger_hash = some hash;
          server_timestamp = s.now;
          error_code = none;
        })
        s.server_signing_secret_key

  unfoldable pub new_device :
      ClientEventEnvelope → Text → EnrollmentChallengeRow → Bool → ℕ → DeviceRow
  new_device event certificate_fingerprint challenge hardware_backed counter = record {
    id = event.device_id;
    executive_id = event.actor_id;
    certificate_fingerprint = certificate_fingerprint;
    public_key = challenge.public_key;
    status = DeviceStatus.enrolled;
    hardware_backed = hardware_backed;
    enrolled_at = s.now;
    revoked_at = none;
    last_seen_at = some s.now;
    risk_score = 0;
    max_event_counter = counter;
  }

  unfoldable pub append_enrollment_event :
      ClientEventEnvelope → Text → EnrollmentChallengeRow → Bool → Action ServerAck
  append_enrollment_event event certificate_fingerprint challenge hardware_backed = do
    sequence ← gets next_server_sequence
    previous ← gets previous_ledger_hash
    let resulting = compute_ledger_hash s.host previous sequence event
    ack ← lift (enrollment_ack event sequence resulting)
    counter ← lift (to_sql_integer event.device_event_counter)
    attempt
        (insert_device (new_device event certificate_fingerprint challenge hardware_backed counter))
    insert_ledger_event s.host (record {
      event = event;
      server_sequence = sequence;
      previous_ledger_hash = previous;
      resulting_ledger_hash = resulting;
      server_signature = ack.server_signature;
      status = EventStatus.accepted;
      error_code = none;
      server_timestamp = s.now;
    })
    modify (accept_head event.object_type event.object_id sequence)
    pure ack

  unfoldable pub issue_certificate : EnrollmentChallengeRow → Result IssuedDeviceCertificate
  issue_certificate challenge = elim (add_days s.dates s.now s.device_certificate_lifetime_days) [
    | err e ↦ err e
    | ok expires_at ↦ s.certificate_authority.issue_device_certificate (record {
      executive_id = challenge.executive_id;
      device_id = challenge.device_id;
      public_key = challenge.public_key;
      challenge_id = challenge.id;
      issued_at = s.now;
      expires_at = expires_at;
    })
  ]

  unfoldable pub finish_enrollment : EnrollmentChallengeRow → Text → Db → Db
  finish_enrollment challenge certificate_fingerprint db =
      audit_as s AuditCategory.auth challenge.executive_id
        (field (codes "event") (str (codes "device_enrolled")) (
          field (codes "device_id") (str challenge.device_id)
            (field (codes "certificate_fingerprint") (str certificate_fingerprint) end)))
        (consume_challenge challenge.id s.now (consume_token challenge.token_hash s.now db))

  unfoldable pub enrollment_statements :
      ClientEventEnvelope → EnrollmentChallengeRow → Bool → Action CompleteEnrollmentResult
  enrollment_statements event challenge hardware_backed = do
    certificate ← lift (issue_certificate challenge)
    acknowledgement ←
        append_enrollment_event event certificate.certificate_fingerprint challenge hardware_backed
    modify (finish_enrollment challenge certificate.certificate_fingerprint)
    pure (record { certificate = certificate; acknowledgement = acknowledgement })

  unfoldable pub complete_enrollment : CompleteEnrollmentInput → Action CompleteEnrollmentResult
  complete_enrollment input = do
    event ← lift (parse_envelope s.host.is_datetime input.enrollment_event)
    challenge ← λ db. (check_enrollment s input event db, db)
    transaction (enrollment_statements event challenge input.hardware_backed)
