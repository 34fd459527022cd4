-- ===== src/Enrollment/Trail.antt =====
-- The audit log's hash chain under server/src/pki/enrollment.ts.
use vorcaro_ledger.Prelude.{Bool, Text, ◌≡◌, arith}
use vorcaro_ledger.Protocol.Types.{AuditCategory}
use vorcaro_ledger.Protocol.Result.{ok}
use vorcaro_ledger.Protocol.Canonical.{Fields}
use vorcaro_ledger.Protocol.Envelope.{ClientEventEnvelope}
use vorcaro_ledger.Database.Tables.{
  Db, DeviceRow, EnrollmentChallengeRow, EnrollmentTokenRow, RevocationListRow,
}
use vorcaro_ledger.Database.Insert.{accept_head}
use vorcaro_ledger.Database.Keeps.{
  Keeps, Keeps-pure, Keeps-lift, Keeps-read, Keeps-gets, Keeps-modify, Keeps-bind,
  Keeps-transaction,
}
use vorcaro_ledger.Audit.Trail.{
  IsTrail, SameLogs, write_audit_log-IsTrail, statement-IsTrail, insert_ledger_event-IsTrail,
}
use vorcaro_ledger.Enrollment.Service.{
  PkiService, CompleteEnrollmentInput, IssueEnrollmentTokenInput, BeginEnrollmentInput,
  RevokeDeviceInput,
}
use vorcaro_ledger.Enrollment.Statements.{
  insert_device, insert_token, insert_challenge, insert_revocation_list, consume_token,
  consume_challenge, revoke_device_row,
}
use vorcaro_ledger.Enrollment.Tokens.{audit_as, issue_enrollment_token, begin_enrollment}
use vorcaro_ledger.Enrollment.Completion.{
  append_enrollment_event, finish_enrollment, enrollment_statements, complete_enrollment,
}
use vorcaro_ledger.Enrollment.Revocation.{
  write_revocation_list, revocation_statements, revoke_device,
}

insert_device_logs :
    (new : DeviceRow) (db db' : Db) → insert_device new db ≡ ok db' → SameLogs db db'
unfolding insert_device
insert_device_logs new db db' is = (ground arith, ground arith)

insert_token_logs :
    (new : EnrollmentTokenRow) (db db' : Db) → insert_token new db ≡ ok db' → SameLogs db db'
unfolding insert_token
insert_token_logs new db db' is = (ground arith, ground arith)

insert_challenge_logs :
    (new : EnrollmentChallengeRow) (db db' : Db)
    → insert_challenge new db ≡ ok db'
    → SameLogs db db'
unfolding insert_challenge
insert_challenge_logs new db db' is = (ground arith, ground arith)

insert_revocation_list_logs :
    (new : RevocationListRow) (db db' : Db)
    → insert_revocation_list new db ≡ ok db'
    → SameLogs db db'
unfolding insert_revocation_list
insert_revocation_list_logs new db db' is = (ground arith, ground arith)

module _ (s : PkiService) (old : Db) where
  append_enrollment_event-IsTrail :
      (event : ClientEventEnvelope) (fingerprint : Text) (challenge : EnrollmentChallengeRow)
      (hardware_backed : Bool)
      → Keeps
          (IsTrail s.host old)
          (append_enrollment_event s event fingerprint challenge hardware_backed)
  unfolding append_enrollment_event accept_head
  append_enrollment_event-IsTrail event fingerprint challenge hardware_backed =
      Keeps-bind (Keeps-gets _) (λ sequence. Keeps-bind (Keeps-gets _) (λ previous.
        Keeps-bind (Keeps-lift _) (λ ack. Keeps-bind (Keeps-lift _) (λ counter.
          Keeps-bind (statement-IsTrail s.host old _ (insert_device_logs _)) (λ _.
            Keeps-bind (insert_ledger_event-IsTrail s.host old _)
              (λ _. Keeps-bind (Keeps-modify _ (λ db trail. trail)) (λ _. Keeps-pure ack)))))))

  audit_as-IsTrail :
      (category : AuditCategory) (actor : Text) (detail : Fields) (db : Db)
      → IsTrail s.host old db
      → IsTrail s.host old (audit_as s category actor detail db)
  unfolding audit_as
  audit_as-IsTrail category actor detail = write_audit_log-IsTrail s.host _ old

  pub complete_enrollment-IsTrail :
      (input : CompleteEnrollmentInput) → Keeps (IsTrail s.host old) (complete_enrollment s input)
  unfolding complete_enrollment enrollment_statements finish_enrollment consume_token
      consume_challenge
  complete_enrollment-IsTrail input = Keeps-bind (Keeps-lift _) (λ event.
      Keeps-bind (Keeps-read _) (λ challenge. Keeps-transaction (
        Keeps-bind (Keeps-lift _) (λ certificate.
          Keeps-bind
            (append_enrollment_event-IsTrail event certificate.certificate_fingerprint challenge
              input.hardware_backed)
            (λ ack.
              Keeps-bind (Keeps-modify _ (λ db trail. audit_as-IsTrail _ _ _ _ trail))
                (λ _. Keeps-pure _))))))

  pub issue_enrollment_token-IsTrail :
      (input : IssueEnrollmentTokenInput)
      → Keeps (IsTrail s.host old) (issue_enrollment_token s input)
  unfolding issue_enrollment_token
  issue_enrollment_token-IsTrail input =
      Keeps-bind (statement-IsTrail s.host old _ (insert_token_logs _))
        (λ _. Keeps-bind (Keeps-modify _ (audit_as-IsTrail _ _ _)) (λ _. Keeps-pure _))

  pub begin_enrollment-IsTrail :
      (input : BeginEnrollmentInput) → Keeps (IsTrail s.host old) (begin_enrollment s input)
  unfolding begin_enrollment
  begin_enrollment-IsTrail input = Keeps-bind (Keeps-read _) (λ token.
      Keeps-bind (Keeps-lift _) (λ expires_at.
        Keeps-bind (statement-IsTrail s.host old _ (insert_challenge_logs _))
          (λ _. Keeps-bind (Keeps-modify _ (audit_as-IsTrail _ _ _)) (λ _. Keeps-pure _))))

  pub revoke_device-IsTrail :
      (input : RevokeDeviceInput) → Keeps (IsTrail s.host old) (revoke_device s input)
  unfolding revoke_device revocation_statements write_revocation_list revoke_device_row
  revoke_device-IsTrail input = Keeps-bind (Keeps-read _) (λ device. Keeps-transaction (
      Keeps-bind (Keeps-lift _) (λ _. Keeps-bind (Keeps-modify _ (λ db trail. trail)) (λ _.
        Keeps-bind
          (Keeps-bind (Keeps-gets _) (λ version. Keeps-bind (Keeps-gets _) (λ ids.
            Keeps-bind (Keeps-lift _) (λ list.
              Keeps-bind (statement-IsTrail s.host old _ (insert_revocation_list_logs _))
                (λ _. Keeps-pure list)))))
          (λ list. Keeps-bind (Keeps-modify _ (audit_as-IsTrail _ _ _)) (λ _. Keeps-pure list))))))
