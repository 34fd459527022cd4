-- ===== src/Enrollment/Chain.antt =====
-- The ledger's hash chain under server/src/pki/enrollment.ts, which writes rows of its own.
use vorcaro_ledger.Prelude.{Bool, none, ◌≡◌, refl, arith, inl, inr, Text}
use vorcaro_ledger.Protocol.Types.{EventStatus}
use vorcaro_ledger.Protocol.Result.{Result, ok, err, Result-cases}
use vorcaro_ledger.Protocol.Envelope.{ClientEventEnvelope, ServerAck}
use vorcaro_ledger.Protocol.Crypto.{compute_ledger_hash}
use vorcaro_ledger.Database.Tables.{
  Db, DeviceRow, EnrollmentChallengeRow, EnrollmentTokenRow, RevocationListRow,
}
use vorcaro_ledger.Database.Action.{Action, pure, modify, attempt, ◌>>=◌, ◌>>◌}
use vorcaro_ledger.Database.Keeps.{
  Keeps, settled-Keeps, Keeps-pure, Keeps-lift, Keeps-read, Keeps-gets, Keeps-modify, Keeps-attempt,
  Keeps-bind, Keeps-transaction,
}
use vorcaro_ledger.Database.Select.{next_server_sequence, previous_ledger_hash, to_sql_integer}
use vorcaro_ledger.Database.Insert.{accept_head}
use vorcaro_ledger.Ledger.Rows.{InsertInput}
use vorcaro_ledger.Ledger.Append.{insert_ledger_event}
use vorcaro_ledger.Ledger.Chain.{IsChain}
use vorcaro_ledger.Ledger.Chain.Insertion.{insert_ledger_event-IsChain}
use vorcaro_ledger.Audit.{write_audit_log}
use vorcaro_ledger.Enrollment.Service.{
  PkiService, CompleteEnrollmentInput, IssueEnrollmentTokenInput, BeginEnrollmentInput,
  RevokeDeviceInput,
}
use vorcaro_ledger.Enrollment.Statements.{
  insert_device, insert_token, insert_challenge, insert_revocation_list, consume_token,
  consume_challenge, revoke_device_row,
}
use vorcaro_ledger.Enrollment.Tokens.{audit_as, issue_enrollment_token, begin_enrollment}
use vorcaro_ledger.Enrollment.Completion.{
  enrollment_ack, new_device, append_enrollment_event, finish_enrollment, enrollment_statements,
  complete_enrollment,
}
use vorcaro_ledger.Enrollment.Revocation.{
  write_revocation_list, revocation_statements, revoke_device,
}

module _ (s : PkiService) where
  abbrev Chained : Db → Type 0
  Chained db = IsChain s.host db.ledger_events

  -- A statement that leaves the ledger's rows as they are.
  statement-Keeps :
      (f : Db → Result Db)
      → ((db db' : Db) → f db ≡ ok db' → db'.ledger_events ≡ db.ledger_events)
      → Keeps Chained (attempt f)
  statement-Keeps f same = Keeps-attempt f (λ db db' is chain. rw (same db db' is) chain)

  abbrev next_input : ClientEventEnvelope → Text → Db → InsertInput
  next_input event signature db = record {
    event = event;
    server_sequence = next_server_sequence db;
    previous_ledger_hash = previous_ledger_hash db;
    resulting_ledger_hash =
        compute_ledger_hash s.host (previous_ledger_hash db) (next_server_sequence db) event;
    server_signature = signature;
    status = EventStatus.accepted;
    error_code = none;
    server_timestamp = s.now;
  }

  -- The statements behind the new device's row.
  abbrev pub insert_and_accept : ClientEventEnvelope → ServerAck → Db → Action ServerAck
  insert_and_accept event ack db = do
    insert_ledger_event s.host (next_input event ack.server_signature db)
    modify (accept_head event.object_type event.object_id (next_server_sequence db))
    pure ack

  insert_and_accept-Chained :
      (event : ClientEventEnvelope) (ack : ServerAck) (db db1 : Db)
      → db1.ledger_events ≡ db.ledger_events
      → Chained db
      → Chained (insert_and_accept event ack db db1).1
  unfolding accept_head ◌>>=◌ next_server_sequence previous_ledger_hash
  insert_and_accept-Chained event ack db db1 same chain =
      let chain' =
        insert_ledger_event-IsChain s.host (next_input event ack.server_signature db) db1
          (record {
            sequence = rw same refl;
            previous_eq = rw same refl;
            resulting_eq = rw same refl;
          })
          (rw same chain) in
      settled-Keeps Chained
        (λ (_ : Unit {0}). do
          modify (accept_head event.object_type event.object_id (next_server_sequence db))
          pure ack)
        (insert_ledger_event s.host (next_input event ack.server_signature db) db1) db chain'
        (λ _. chain')

  insert_device-ledger_events :
      (new : DeviceRow) (db db' : Db)
      → insert_device new db ≡ ok db'
      → db'.ledger_events ≡ db.ledger_events
  unfolding insert_device
  insert_device-ledger_events new db db' is = ground arith

  attempted-Chained :
      {B : Type 0} (r : Result Db) (db : Db) (k : Action B)
      → Chained db
      → ((db1 : Db) → r ≡ ok db1 → Chained (k db1).1)
      → Chained (((attempt (λ _. r)) >> k) db).1
  unfolding ◌>>=◌
  attempted-Chained (ok db1) db k chain then = then db1 refl
  attempted-Chained (err e) db k chain then = chain

  append_enrollment_event-Chained :
      (event : ClientEventEnvelope) (fingerprint : Text) (challenge : EnrollmentChallengeRow)
      (hardware_backed : Bool) (db : Db)
      → Chained db
      → Chained (append_enrollment_event s event fingerprint challenge hardware_backed db).1
  unfolding append_enrollment_event ◌>>=◌
  append_enrollment_event-Chained event fingerprint challenge hardware_backed db chain =
      elim (Result-cases (
        enrollment_ack s event (next_server_sequence db)
          (compute_ledger_hash s.host (previous_ledger_hash db) (next_server_sequence db) event))) [
            | inr (e, threw) ↦ rw threw chain
            | inl (ack, signed) ↦
                rw signed (elim (Result-cases (to_sql_integer event.device_event_counter)) [
                  | inr (e, threw) ↦ rw threw chain
                  | inl (counter, safe) ↦ rw safe (
                      let new = new_device s event fingerprint challenge hardware_backed counter in
                      attempted-Chained (insert_device new db) db (insert_and_accept event ack db)
                        chain
                        (λ db1 is.
                          insert_and_accept-Chained event ack db db1
                            (insert_device-ledger_events new db db1 is) chain))
                ])
          ]

  insert_token-Keeps : (new : EnrollmentTokenRow) → Keeps Chained (attempt (insert_token new))
  unfolding insert_token
  insert_token-Keeps new = statement-Keeps (insert_token new) (λ db db' is. ground arith)

  insert_challenge-Keeps :
      (new : EnrollmentChallengeRow) → Keeps Chained (attempt (insert_challenge new))
  unfolding insert_challenge
  insert_challenge-Keeps new = statement-Keeps (insert_challenge new) (λ db db' is. ground arith)

  insert_revocation_list-Keeps :
      (new : RevocationListRow) → Keeps Chained (attempt (insert_revocation_list new))
  unfolding insert_revocation_list
  insert_revocation_list-Keeps new =
      statement-Keeps (insert_revocation_list new) (λ db db' is. ground arith)

  -- The completion of an enrollment, whether it returns or throws, keeps the ledger's hash chain:
  -- the row that it writes is numbered and linked like those of the appender.
  pub complete_enrollment-IsChain :
      (input : CompleteEnrollmentInput) (db : Db)
      → IsChain s.host db.ledger_events
      → IsChain s.host (complete_enrollment s input db).1.ledger_events
  unfolding complete_enrollment enrollment_statements finish_enrollment audit_as write_audit_log
      consume_token consume_challenge
  complete_enrollment-IsChain input =
      (Keeps-bind (Keeps-lift _) (λ event. Keeps-bind (Keeps-read _) (λ challenge.
        Keeps-transaction (
          Keeps-bind (Keeps-lift _) (λ certificate.
            Keeps-bind
              (record {
                at =
                    append_enrollment_event-Chained event certificate.certificate_fingerprint
                      challenge input.hardware_backed;
              })
              (λ ack. Keeps-bind (Keeps-modify _ (λ db chain. chain)) (λ _. Keeps-pure _))))))).at

  -- So do the other calls, which write no row of the ledger.
  pub issue_enrollment_token-IsChain :
      (input : IssueEnrollmentTokenInput) (db : Db)
      → IsChain s.host db.ledger_events
      → IsChain s.host (issue_enrollment_token s input db).1.ledger_events
  unfolding issue_enrollment_token insert_token audit_as write_audit_log
  issue_enrollment_token-IsChain input =
      (Keeps-bind (insert_token-Keeps _)
        (λ _. Keeps-bind (Keeps-modify _ (λ db chain. chain)) (λ _. Keeps-pure _))).at

  pub begin_enrollment-IsChain :
      (input : BeginEnrollmentInput) (db : Db)
      → IsChain s.host db.ledger_events
      → IsChain s.host (begin_enrollment s input db).1.ledger_events
  unfolding begin_enrollment insert_challenge audit_as write_audit_log
  begin_enrollment-IsChain input =
      (Keeps-bind (Keeps-read _) (λ token. Keeps-bind (Keeps-lift _) (λ expires_at.
        Keeps-bind (insert_challenge-Keeps _)
          (λ _. Keeps-bind (Keeps-modify _ (λ db chain. chain)) (λ _. Keeps-pure _))))).at

  pub revoke_device-IsChain :
      (input : RevokeDeviceInput) (db : Db)
      → IsChain s.host db.ledger_events
      → IsChain s.host (revoke_device s input db).1.ledger_events
  unfolding revoke_device revocation_statements write_revocation_list revoke_device_row
      insert_revocation_list audit_as write_audit_log
  revoke_device-IsChain input =
      (Keeps-bind (Keeps-read _) (λ device. Keeps-transaction (
        Keeps-bind (Keeps-lift _) (λ _. Keeps-bind (Keeps-modify _ (λ db chain. chain)) (λ _.
          Keeps-bind
            (Keeps-bind (Keeps-gets _) (λ version. Keeps-bind (Keeps-gets _) (λ ids.
              Keeps-bind (Keeps-lift _)
                (λ list. Keeps-bind (insert_revocation_list-Keeps _) (λ _. Keeps-pure list)))))
            (λ list. Keeps-bind (Keeps-modify _ (λ db chain. chain)) (λ _. Keeps-pure list))))))).at
