-- ===== src/Recovery/Trail.antt =====
-- The audit log's hash chain under server/src/recovery/service.ts.
use vorcaro_ledger.Prelude.{ℕ, List, [], ◌∷◌, Text, Bool-cases, inl, inr, leb, ◌≡◌, arith}
use vorcaro_ledger.Protocol.Result.{ok}
use vorcaro_ledger.Protocol.Canonical.{Fields}
use vorcaro_ledger.Protocol.Envelope.{ClientEventEnvelope}
use vorcaro_ledger.Database.Tables.{Db, ApprovalRow, CeremonyRow, ExecutiveKeyRow, KeyPackageRow}
use vorcaro_ledger.Database.Insert.{accept_head, set_watermark}
use vorcaro_ledger.Database.Keeps.{
  Keeps, Keeps-pure, Keeps-lift, Keeps-gets, Keeps-read, Keeps-modify, Keeps-bind,
  Keeps-transaction, Keeps-after_commit,
}
use vorcaro_ledger.Audit.Trail.{
  IsTrail, SameLogs, write_audit_log-IsTrail, statement-IsTrail, insert_ledger_event-IsTrail,
}
use vorcaro_ledger.Recovery.Statements.{
  insert_ceremony, insert_approval, insert_executive_key, insert_key_package, revoke_key_packages,
  set_ceremony_status, complete_ceremony, quarantine_executive, quarantine_devices,
  close_executive_key, activate_executive,
}
use vorcaro_ledger.Recovery.Ceremony.{
  RecoveryService, InitiateRecoveryInput, ApproveRecoveryInput, audit, approval_count,
  initiate_statements, initiate_ceremony, approve_statements, approve_ceremony, reach_threshold,
  check_threshold,
}
use vorcaro_ledger.Recovery.Rotation.{
  RewrapInput, rewrap_each, rewrap_key_packages, append_accepted_event,
}
use vorcaro_ledger.Recovery.Checks.{ExecuteRecoveryInput, Target}
use vorcaro_ledger.Recovery.Execution.{rotate_key, finish, execute_statements, execute_ceremony}

insert_ceremony_logs :
    (new : CeremonyRow) (db db' : Db) → insert_ceremony new db ≡ ok db' → SameLogs db db'
unfolding insert_ceremony
insert_ceremony_logs new db db' is = (ground arith, ground arith)

insert_approval_logs :
    (new : ApprovalRow) (db db' : Db) → insert_approval new db ≡ ok db' → SameLogs db db'
unfolding insert_approval
insert_approval_logs new db db' is = (ground arith, ground arith)

insert_executive_key_logs :
    (new : ExecutiveKeyRow) (db db' : Db) → insert_executive_key new db ≡ ok db' → SameLogs db db'
unfolding insert_executive_key
insert_executive_key_logs new db db' is = (ground arith, ground arith)

insert_key_package_logs :
    (new : KeyPackageRow) (db db' : Db) → insert_key_package new db ≡ ok db' → SameLogs db db'
unfolding insert_key_package
insert_key_package_logs new db db' is = (ground arith, ground arith)

module _ (s : RecoveryService) (old : Db) where
  audit-IsTrail :
      (actor : Text) (detail : Fields) (db : Db)
      → IsTrail s.host old db
      → IsTrail s.host old (audit s actor detail db)
  unfolding audit
  audit-IsTrail actor detail = write_audit_log-IsTrail s.host _ old

  append_accepted_event-IsTrail :
      (event : ClientEventEnvelope) → Keeps (IsTrail s.host old) (append_accepted_event s event)
  unfolding append_accepted_event accept_head set_watermark
  append_accepted_event-IsTrail event = Keeps-bind (Keeps-gets _) (λ existing.
      Keeps-bind (Keeps-lift _) (λ _. Keeps-bind (Keeps-gets _) (λ sequence.
        Keeps-bind (Keeps-gets _) (λ previous. Keeps-bind (Keeps-lift _) (λ signature.
          Keeps-bind (insert_ledger_event-IsTrail s.host old _) (λ _.
            Keeps-bind (Keeps-modify _ (λ db trail. trail)) (λ _.
              Keeps-bind (Keeps-lift _) (λ counter.
                Keeps-bind (Keeps-modify _ (λ db trail. trail)) (λ _. Keeps-pure _)))))))))

  rewrap_each-IsTrail :
      (input : RewrapInput) (ks : List KeyPackageRow)
      → Keeps (IsTrail s.host old) (rewrap_each s input ks)
  unfolding rewrap_each
  rewrap_each-IsTrail input [] = Keeps-pure []
  rewrap_each-IsTrail input (k ∷ ks) = Keeps-bind (Keeps-lift _) (λ wrapped.
      Keeps-bind (statement-IsTrail s.host old _ (insert_key_package_logs _))
        (λ _. Keeps-bind (rewrap_each-IsTrail input ks) (λ ids. Keeps-pure _)))

  rewrap_key_packages-IsTrail :
      (input : RewrapInput) → Keeps (IsTrail s.host old) (rewrap_key_packages s input)
  unfolding rewrap_key_packages revoke_key_packages
  rewrap_key_packages-IsTrail input = Keeps-bind (Keeps-gets _) (λ packages.
      Keeps-bind (rewrap_each-IsTrail input packages)
        (λ ids. Keeps-bind (Keeps-modify _ (λ db trail. trail)) (λ _. Keeps-pure ids)))

  rotate_key-IsTrail :
      (target : Target) (n : ℕ) → Keeps (IsTrail s.host old) (rotate_key s target n)
  unfolding rotate_key close_executive_key activate_executive
  rotate_key-IsTrail target n = Keeps-bind (Keeps-modify _ (λ db trail. trail)) (λ _.
      Keeps-bind (statement-IsTrail s.host old _ (insert_executive_key_logs _))
        (λ _. Keeps-modify _ (λ db trail. trail)))

  check_threshold-IsTrail :
      (input : ApproveRecoveryInput) (ceremony : CeremonyRow) (db : Db)
      → IsTrail s.host old db
      → IsTrail s.host old (check_threshold s input ceremony db)
  unfolding check_threshold reach_threshold set_ceremony_status
  check_threshold-IsTrail input ceremony db trail =
      elim (Bool-cases (leb ceremony.required_approvals (approval_count input.ceremony_id db))) [
        | inl met ↦ rw met (audit-IsTrail _ _ _ trail)
        | inr below ↦ rw below trail
      ]

  pub initiate_ceremony-IsTrail :
      (input : InitiateRecoveryInput) → Keeps (IsTrail s.host old) (initiate_ceremony s input)
  unfolding initiate_ceremony initiate_statements quarantine_executive quarantine_devices
  initiate_ceremony-IsTrail input = Keeps-bind (Keeps-lift _) (λ _.
      Keeps-bind
        (Keeps-transaction (
          Keeps-bind (Keeps-read _) (λ executive. Keeps-bind (Keeps-lift _) (λ _.
            Keeps-bind (statement-IsTrail s.host old _ (insert_ceremony_logs _)) (λ _.
              Keeps-bind (Keeps-modify _ (λ db trail. trail)) (λ _.
                Keeps-bind (Keeps-modify _ (λ db trail. trail))
                  (λ _. Keeps-modify _ (audit-IsTrail _ _))))))))
        (λ _. Keeps-after_commit _))

  pub approve_ceremony-IsTrail :
      (input : ApproveRecoveryInput) → Keeps (IsTrail s.host old) (approve_ceremony s input)
  unfolding approve_ceremony approve_statements
  approve_ceremony-IsTrail input = Keeps-bind (Keeps-lift _) (λ _.
      Keeps-bind
        (Keeps-transaction (
          Keeps-bind (Keeps-read _) (λ ceremony. Keeps-bind (Keeps-lift _) (λ _.
            Keeps-bind (Keeps-read _) (λ _.
              Keeps-bind (statement-IsTrail s.host old _ (insert_approval_logs _)) (λ _.
                Keeps-bind (Keeps-modify _ (audit-IsTrail _ _))
                  (λ _. Keeps-modify _ (check_threshold-IsTrail input ceremony))))))))
        (λ _. Keeps-after_commit _))

  pub execute_ceremony-IsTrail :
      (input : ExecuteRecoveryInput) → Keeps (IsTrail s.host old) (execute_ceremony s input)
  unfolding execute_ceremony execute_statements finish complete_ceremony
  execute_ceremony-IsTrail input = Keeps-bind (Keeps-lift _) (λ performed.
      Keeps-bind (Keeps-lift _) (λ rotated.
        Keeps-bind
          (Keeps-transaction (
            Keeps-bind (Keeps-read _) (λ target. Keeps-bind (Keeps-gets _) (λ head_sequence.
              Keeps-bind (rewrap_key_packages-IsTrail _) (λ ids.
                Keeps-bind (rotate_key-IsTrail target head_sequence) (λ _.
                  Keeps-bind (append_accepted_event-IsTrail performed) (λ first.
                    Keeps-bind (append_accepted_event-IsTrail rotated) (λ second.
                      Keeps-bind (Keeps-modify _ (λ db trail. audit-IsTrail _ _ _ trail))
                        (λ _. Keeps-pure _)))))))))
          (λ done. Keeps-bind (Keeps-after_commit _) (λ ceremony. Keeps-pure _))))
