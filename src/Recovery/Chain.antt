-- ===== src/Recovery/Chain.antt =====
-- The ledger's hash chain under server/src/recovery/service.ts, which writes rows of its own.
pub mod Rows
use vorcaro_ledger.Prelude.{ℕ, ◌+◌, [], List, Text, ◌∷◌, inl, inr, arith, subst, ◌≡◌}
use vorcaro_ledger.Protocol.Result.{Result, ok, err, Result-cases}
use vorcaro_ledger.Protocol.Schema.{parse_envelope}
use vorcaro_ledger.Protocol.Envelope.{ClientEventEnvelope, ServerAck}
use vorcaro_ledger.Database.Tables.{Db}
use vorcaro_ledger.Database.Action.{attempt, ◌>>=◌}
use vorcaro_ledger.Database.Keeps.{
  Keeps, Keeps-pure, Keeps-lift, Keeps-gets, Keeps-read, Keeps-modify, Keeps-attempt, Keeps-bind,
  Keeps-transaction, Keeps-after_commit,
}
use vorcaro_ledger.Database.Select.{max_sequence}
use vorcaro_ledger.Ledger.Chain.{IsChain}
use vorcaro_ledger.Audit.{write_audit_log}
use vorcaro_ledger.Recovery.Statements.{
  insert_ceremony, insert_approval, insert_executive_key, set_ceremony_status, complete_ceremony,
  quarantine_executive, quarantine_devices, close_executive_key, activate_executive,
}
use vorcaro_ledger.Recovery.Ceremony.{
  RecoveryService, RecoveryCeremony, InitiateRecoveryInput, ApproveRecoveryInput, audit,
  assert_custodian, initiate_statements, initiate_ceremony, approve_statements, approve_ceremony,
  reach_threshold, check_threshold, read_ceremony, ceremony_id_of,
}
use vorcaro_ledger.Recovery.Rotation.{RewrapInput, rewrap_key_packages, append_accepted_event}
use vorcaro_ledger.Recovery.Checks.{ExecuteRecoveryInput, Target, check_execution}
use vorcaro_ledger.Recovery.Execution.{
  Executed, ExecuteRecoveryResult, rotate_key, finish, execute_statements, execute_ceremony,
}
use vorcaro_ledger.Recovery.Chain.Rows.{
  Chained, append_accepted_event-IsChain, rewrap_key_packages-Keeps,
}

module _ (s : RecoveryService) where
  -- A statement that leaves the ledger's rows as they are.
  statement-Keeps :
      (f : Db → Result Db)
      → ((db db' : Db) → f db ≡ ok db' → db'.ledger_events ≡ db.ledger_events)
      → Keeps (Chained s) (attempt f)
  statement-Keeps f same = Keeps-attempt f (λ db db' is chain. rw (same db db' is) chain)

  rotate_key-Keeps : (target : Target) (n : ℕ) → Keeps (Chained s) (rotate_key s target n)
  unfolding rotate_key insert_executive_key close_executive_key activate_executive
  rotate_key-Keeps target n = Keeps-bind (Keeps-modify _ (λ db chain. chain)) (λ _.
      Keeps-bind (statement-Keeps _ (λ db db' is. ground arith))
        (λ _. Keeps-modify _ (λ db chain. chain)))

  initiate_statements-Keeps :
      (input : InitiateRecoveryInput) → Keeps (Chained s) (initiate_statements s input)
  unfolding initiate_statements insert_ceremony quarantine_executive quarantine_devices audit
      write_audit_log
  initiate_statements-Keeps input = Keeps-bind (Keeps-read _) (λ executive.
      Keeps-bind (Keeps-lift _) (λ _.
        Keeps-bind (statement-Keeps _ (λ db db' is. ground arith)) (λ _.
          Keeps-bind (Keeps-modify _ (λ db chain. chain)) (λ _.
            Keeps-bind (Keeps-modify _ (λ db chain. chain))
              (λ _. Keeps-modify _ (λ db chain. chain))))))

  approve_statements-Keeps :
      (input : ApproveRecoveryInput) → Keeps (Chained s) (approve_statements s input)
  unfolding approve_statements insert_approval check_threshold reach_threshold set_ceremony_status
      audit write_audit_log ◌>>=◌
  approve_statements-Keeps input = record {
    at = λ db chain. subst (IsChain s.host) {x = db.ledger_events} (ground arith) chain;
  }

  execute_statements-Keeps :
      (input : ExecuteRecoveryInput) (performed rotated : ClientEventEnvelope)
      → Keeps (Chained s) (execute_statements s input performed rotated)
  unfolding execute_statements finish audit write_audit_log complete_ceremony
  execute_statements-Keeps input performed rotated = Keeps-bind (Keeps-read _) (λ target.
      Keeps-bind (Keeps-gets _) (λ head_sequence. Keeps-bind (rewrap_key_packages-Keeps s _) (λ ids.
        Keeps-bind (rotate_key-Keeps target head_sequence) (λ _.
          Keeps-bind (record { at = append_accepted_event-IsChain s performed })
            (λ first.
              Keeps-bind (record { at = append_accepted_event-IsChain s rotated })
                (λ second. Keeps-bind (Keeps-modify _ (λ db chain. chain)) (λ _. Keeps-pure _)))))))

  -- The execution of a ceremony, whether it returns or throws, keeps the ledger's hash chain: the
  -- two rows that it writes itself are numbered and linked like those of the appender.
  pub execute_ceremony-IsChain :
      (input : ExecuteRecoveryInput) (db : Db)
      → IsChain s.host db.ledger_events
      → IsChain s.host (execute_ceremony s input db).1.ledger_events
  unfolding execute_ceremony
  execute_ceremony-IsChain input =
      (Keeps-bind (Keeps-lift _) (λ performed. Keeps-bind (Keeps-lift _) (λ rotated.
        Keeps-bind (Keeps-transaction (execute_statements-Keeps input performed rotated))
          (λ done. Keeps-bind (Keeps-after_commit _) (λ ceremony. Keeps-pure _))))).at

  -- So do the initiation and the approval of a ceremony, which write no row.
  pub initiate_ceremony-IsChain :
      (input : InitiateRecoveryInput) (db : Db)
      → IsChain s.host db.ledger_events
      → IsChain s.host (initiate_ceremony s input db).1.ledger_events
  unfolding initiate_ceremony
  initiate_ceremony-IsChain input =
      (Keeps-bind (Keeps-lift _) (λ _.
        Keeps-bind (Keeps-transaction (initiate_statements-Keeps input))
          (λ _. Keeps-after_commit _))).at

  pub approve_ceremony-IsChain :
      (input : ApproveRecoveryInput) (db : Db)
      → IsChain s.host db.ledger_events
      → IsChain s.host (approve_ceremony s input db).1.ledger_events
  unfolding approve_ceremony
  approve_ceremony-IsChain input =
      (Keeps-bind (Keeps-lift _) (λ _.
        Keeps-bind (Keeps-transaction (approve_statements-Keeps input))
          (λ _. Keeps-after_commit _))).at
