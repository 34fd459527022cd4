-- ===== src/Enrollment/Effects.antt =====
-- What an enrollment that `completeEnrollment` of server/src/pki/enrollment.ts returns has written.
use vorcaro_ledger.Prelude.{
  ℕ, Bool, none, some, List, ◌∷◌, Text, text_eq, any-find-some, find-some, ◌⊎◌, ◌||◌, ◌≡◌, refl, ap,
  subst, arith, Option-cases, inl, inr,
}
use vorcaro_ledger.Protocol.Result.{ok}
use vorcaro_ledger.Protocol.Schema.{parse_envelope}
use vorcaro_ledger.Protocol.Envelope.{ClientEventEnvelope, ServerAck}
use vorcaro_ledger.Database.Tables.{
  Db, DeviceRow, EnrollmentTokenRow, EnrollmentChallengeRow, LedgerEventRow,
}
use vorcaro_ledger.Database.Action.{attempt}
use vorcaro_ledger.Database.Keeps.{
  Keeps, Keeps-pure, Keeps-lift, Keeps-modify, Keeps-attempt, Keeps-bind,
}
use vorcaro_ledger.Database.Returns.{
  Returns, bind-Returns, read-Returns, gets-Returns, modify-Returns, attempt-Returns, pure-Returns,
  transaction-Returns,
}
use vorcaro_ledger.Database.Select.{to_sql_integer, find_device}
use vorcaro_ledger.Database.Insert.{insert_event, accept_head}
use vorcaro_ledger.Ledger.Append.{insert_ledger_event}
use vorcaro_ledger.Audit.{write_audit_log}
use vorcaro_ledger.Enrollment.Service.{
  PkiService, CompleteEnrollmentInput, CompleteEnrollmentResult,
}
use vorcaro_ledger.Enrollment.Statements.{insert_device, consume_token, consume_challenge}
use vorcaro_ledger.Enrollment.Tokens.{audit_as}
use vorcaro_ledger.Enrollment.Checks.{check_enrollment}
use vorcaro_ledger.Enrollment.Completion.{
  new_device, append_enrollment_event, issue_certificate, finish_enrollment, enrollment_statements,
  complete_enrollment,
}
use vorcaro_ledger.Enrollment.Chain.{insert_and_accept}
use vorcaro_ledger.Enrollment.Grounds.{Warrant, check_enrollment-Warrant}

-- The three tables that an enrollment changes besides the ledger's.
pub record Holds (devices : List DeviceRow) (tokens : List EnrollmentTokenRow)
    (challenges : List EnrollmentChallengeRow) (db : Db) : Type 0 where
  pub devices_eq : db.devices ≡ devices
  pub tokens_eq : db.enrollment_tokens ≡ tokens
  pub challenges_eq : db.enrollment_challenges ≡ challenges

module _ (s : PkiService) where
  module _ (devices : List DeviceRow) (tokens : List EnrollmentTokenRow)
      (challenges : List EnrollmentChallengeRow) where
    insert_event-Holds :
        (row : LedgerEventRow)
        → Keeps (Holds devices tokens challenges) (attempt (insert_event row))
    unfolding insert_event
    insert_event-Holds row = Keeps-attempt (insert_event row) (λ db db' is h. record {
      devices_eq = ground (arith, is, h.devices_eq);
      tokens_eq = ground (arith, is, h.tokens_eq);
      challenges_eq = ground (arith, is, h.challenges_eq);
    })

    insert_and_accept-Holds :
        (event : ClientEventEnvelope) (ack : ServerAck) (db : Db)
        → Keeps (Holds devices tokens challenges) (insert_and_accept s event ack db)
    unfolding insert_ledger_event accept_head
    insert_and_accept-Holds event ack db =
        Keeps-bind
          (Keeps-bind (Keeps-lift _) (λ _. Keeps-bind (Keeps-lift _) (λ _. insert_event-Holds _)))
          (λ _.
            Keeps-bind
              (Keeps-modify _ (λ db h. record {
                devices_eq = h.devices_eq;
                tokens_eq = h.tokens_eq;
                challenges_eq = h.challenges_eq;
              }))
              (λ _. Keeps-pure ack))

  inserted_device :
      (new : DeviceRow) (db db' : Db)
      → insert_device new db ≡ ok db'
      → (find_device new.id db ≡ none)
        × Holds (new ∷ db.devices) db.enrollment_tokens db.enrollment_challenges db'
  unfolding insert_device find_device
  inserted_device new db db' h = (
    by_search (Option-cases (find_device new.id db)),
    record {
      devices_eq = ground (arith, h);
      tokens_eq = ground (arith, h);
      challenges_eq = ground (arith, h);
    },
  )
    where
      by_search :
          (find_device new.id db ≡ none) ⊎ ((d : DeviceRow) × (find_device new.id db ≡ some d))
          → find_device new.id db ≡ none
      by_search (inl nothing) = nothing
      by_search (inr (d, seen)) = absurd (
          ground (
            arith,
            h,
            find-some (λ d. text_eq d.id new.id) db.devices d seen,
            any-find-some
                (λ (d : DeviceRow).
                  text_eq d.id new.id
                  || text_eq d.certificate_fingerprint new.certificate_fingerprint)
                (λ d. text_eq d.id new.id) db.devices d,
            seen,
          ))

  safe_counter : (n m : ℕ) → to_sql_integer n ≡ ok m → m ≡ n
  unfolding to_sql_integer
  safe_counter n m h = ground (arith, h)

  append_enrollment_event-Holds :
      (event : ClientEventEnvelope) (fingerprint : Text) (challenge : EnrollmentChallengeRow)
      (hardware_backed : Bool) (db : Db) (ack : ServerAck) (db' : Db)
      → Returns (append_enrollment_event s event fingerprint challenge hardware_backed) db ack db'
      → (find_device event.device_id db ≡ none)
        × Holds
            (new_device s event fingerprint challenge hardware_backed event.device_event_counter
              ∷ db.devices)
            db.enrollment_tokens
            db.enrollment_challenges
            db'
  unfolding append_enrollment_event new_device
  append_enrollment_event-Holds event fingerprint challenge hardware_backed db ack db' h =
      let h1 = gets-Returns _ _ h in
      let h2 = gets-Returns _ _ h1 in
      let (a, signed, h3) = read-Returns _ _ h2 in
      let (counter, safe, h4) = read-Returns _ _ h3 in
      let same = safe_counter event.device_event_counter counter safe in
      let new = new_device s event fingerprint challenge hardware_backed counter in
      let (db1, is, h5) = attempt-Returns (insert_device new) _ h4 in
      let (fresh, holds) = inserted_device new db db1 is in
      let holds' =
        (insert_and_accept-Holds (new ∷ db.devices) db.enrollment_tokens db.enrollment_challenges
            event a db).at
          db1 holds in
      (fresh, rw (← same, ← h5.state) holds')

  finish_enrollment-Holds :
      (challenge : EnrollmentChallengeRow) (fingerprint : Text) (devices : List DeviceRow)
      (db db1 : Db)
      → Holds devices db.enrollment_tokens db.enrollment_challenges db1
      → Holds devices
          (consume_token challenge.token_hash s.now db).enrollment_tokens
          (consume_challenge challenge.id s.now db).enrollment_challenges
          (finish_enrollment s challenge fingerprint db1)
  unfolding finish_enrollment consume_token consume_challenge audit_as write_audit_log
  finish_enrollment-Holds challenge fingerprint devices db db1 h = record {
    devices_eq = h.devices_eq;
    tokens_eq = rw (h.tokens_eq) refl;
    challenges_eq = rw (h.challenges_eq) refl;
  }

  enrollment_statements-Holds :
      (event : ClientEventEnvelope) (challenge : EnrollmentChallengeRow) (hardware_backed : Bool)
      (db : Db) (result : CompleteEnrollmentResult) (db' : Db)
      → Returns (enrollment_statements s event challenge hardware_backed) db result db'
      → (issue_certificate s challenge ≡ ok result.certificate)
        × (find_device event.device_id db ≡ none)
        × Holds
            (new_device s event result.certificate.certificate_fingerprint challenge hardware_backed
                event.device_event_counter
              ∷ db.devices)
            (consume_token challenge.token_hash s.now db).enrollment_tokens
            (consume_challenge challenge.id s.now db).enrollment_challenges
            db'
  unfolding enrollment_statements
  enrollment_statements-Holds event challenge hardware_backed db result db' h =
      let (certificate, certified, h1) = read-Returns _ _ h in
      let (ack, appended, h2) = bind-Returns _ _ db db' _ h1 in
      let (same, state) = pure-Returns (modify-Returns _ _ h2) in
      let fingerprint = certificate.certificate_fingerprint in
      let (fresh, holds) =
        append_enrollment_event-Holds event fingerprint challenge hardware_backed db ack _
          (record { value = appended; state = refl }) in
      let devices =
        new_device s event fingerprint challenge hardware_backed event.device_event_counter
        ∷ db.devices in
      let holds' = finish_enrollment-Holds challenge fingerprint devices db _ holds in
      let issued : certificate ≡ result.certificate =
        ap (λ (r : CompleteEnrollmentResult). r.certificate) same in
      rw (← issued, ← state) (certified, fresh, holds')

  -- A returned enrollment: its warrant, and the rows of its device, token and challenge.
  pub record Enrolled (input : CompleteEnrollmentInput) (db : Db)
      (result : CompleteEnrollmentResult) (db' : Db) : Type 0 where
    pub challenge : EnrollmentChallengeRow
    pub warrant : Warrant s input input.enrollment_event db challenge
    pub certified : issue_certificate s challenge ≡ ok result.certificate
    pub fresh : find_device input.enrollment_event.device_id db ≡ none
    pub devices :
        db'.devices
        ≡ new_device s input.enrollment_event result.certificate.certificate_fingerprint challenge
            input.hardware_backed input.enrollment_event.device_event_counter
          ∷ db.devices
    pub tokens :
        db'.enrollment_tokens ≡ (consume_token challenge.token_hash s.now db).enrollment_tokens
    pub challenges :
        db'.enrollment_challenges ≡ (consume_challenge challenge.id s.now db).enrollment_challenges

  parsed_same :
      (event event' : ClientEventEnvelope)
      → parse_envelope s.host.is_datetime event ≡ ok event'
      → event' ≡ event
  unfolding parse_envelope
  parsed_same event event' h = ground (arith, h)

  pub complete_enrollment-Enrolled :
      (input : CompleteEnrollmentInput) (db : Db) (result : CompleteEnrollmentResult) (db' : Db)
      → Returns (complete_enrollment s input) db result db'
      → Enrolled input db result db'
  unfolding complete_enrollment
  complete_enrollment-Enrolled input db result db' h =
      let (event, parsed, h1) = read-Returns _ _ h in
      let same = parsed_same input.enrollment_event event parsed in
      let (challenge, checked, h2) = read-Returns _ _ h1 in
      by_event event challenge same checked (transaction-Returns h2)
    where
      by_event :
          (event : ClientEventEnvelope) (challenge : EnrollmentChallengeRow)
          → event ≡ input.enrollment_event
          → check_enrollment s input event db ≡ ok challenge
          → Returns (enrollment_statements s event challenge input.hardware_backed) db result db'
          → Enrolled input db result db'
      by_event event challenge same checked h =
          let (certified, fresh, holds) =
            enrollment_statements-Holds event challenge input.hardware_backed db result db' h in
          let warrant = check_enrollment-Warrant s input event db challenge checked in
          record {
            challenge = challenge;
            warrant = subst (λ e. Warrant s input e db challenge) same warrant;
            certified = certified;
            fresh =
                subst (λ (e : ClientEventEnvelope). find_device e.device_id db ≡ none) same fresh;
            devices =
                subst
                  (λ (e : ClientEventEnvelope).
                    db'.devices
                    ≡ new_device s e result.certificate.certificate_fingerprint challenge
                        input.hardware_backed e.device_event_counter
                      ∷ db.devices)
                  same holds.devices_eq;
            tokens = holds.tokens_eq;
            challenges = holds.challenges_eq;
          }
