-- ===== src/Policy/Trail.antt =====
-- The ledger's and the audit log's hash chains under `activatePolicy` of
-- server/src/policy/service.ts.
use vorcaro_ledger.Prelude.{◌≡◌, arith}
use vorcaro_ledger.Protocol.Result.{ok}
use vorcaro_ledger.Protocol.Envelope.{ServerAck}
use vorcaro_ledger.Database.Tables.{Db, PolicyRow}
use vorcaro_ledger.Database.Keeps.{
  Keeps, Keeps-pure, Keeps-lift, Keeps-modify, Keeps-attempt, Keeps-bind,
}
use vorcaro_ledger.Ledger.Chain.{IsChain, append_now-IsChain}
use vorcaro_ledger.Ledger.Trail.{append_now-IsTrail}
use vorcaro_ledger.Audit.{write_audit_log}
use vorcaro_ledger.Audit.Trail.{IsTrail, SameLogs, write_audit_log-IsTrail, statement-IsTrail}
use vorcaro_ledger.Policy.Document.{PolicyDocument}
use vorcaro_ledger.Policy.Activation.{
  PolicyService, ActivatePolicyInput, insert_policy, audit_activation, store_policy,
  activate_policy,
}

insert_policy_logs :
    (new : PolicyRow) (db db' : Db) → insert_policy new db ≡ ok db' → SameLogs db db'
unfolding insert_policy
insert_policy_logs new db db' is = (ground arith, ground arith)

module _ (s : PolicyService) where
  abbrev Chained : Db → Type 0
  Chained db = IsChain s.appender.host db.ledger_events

  store_policy-Chained :
      (input : ActivatePolicyInput) (policy : PolicyDocument) (ack : ServerAck)
      → Keeps Chained (store_policy s input policy ack)
  unfolding store_policy audit_activation write_audit_log
  store_policy-Chained input policy ack = Keeps-bind (Keeps-lift _) (λ sequence.
      Keeps-bind (Keeps-lift _) (λ activated. Keeps-bind (Keeps-lift _) (λ snapshot.
        Keeps-bind (Keeps-lift _) (λ stored.
          Keeps-bind
            (Keeps-attempt _ (λ db db' is chain. rw ((insert_policy_logs _ db db' is).1) chain))
            (λ _. Keeps-bind (Keeps-modify _ (λ db chain. chain)) (λ _. Keeps-pure _))))))

  pub store_policy-IsChain :
      (input : ActivatePolicyInput) (policy : PolicyDocument) (ack : ServerAck) (db : Db)
      → IsChain s.appender.host db.ledger_events
      → IsChain s.appender.host (store_policy s input policy ack db).1.ledger_events
  store_policy-IsChain input policy ack = (store_policy-Chained input policy ack).at

  pub activate_policy-IsChain :
      (input : ActivatePolicyInput) (db : Db)
      → IsChain s.appender.host db.ledger_events
      → IsChain s.appender.host (activate_policy s input db).1.ledger_events
  unfolding activate_policy
  activate_policy-IsChain input =
      (Keeps-bind (Keeps-lift _) (λ policy. Keeps-bind (Keeps-lift _) (λ event.
        Keeps-bind (Keeps-lift _) (λ _. Keeps-bind (Keeps-lift _) (λ _.
          Keeps-bind (record { at = append_now-IsChain s.appender _ })
            (λ ack. store_policy-Chained input policy ack)))))).at

  pub store_policy-IsTrail :
      (old : Db) (input : ActivatePolicyInput) (policy : PolicyDocument) (ack : ServerAck)
      → Keeps (IsTrail s.appender.host old) (store_policy s input policy ack)
  unfolding store_policy audit_activation
  store_policy-IsTrail old input policy ack = Keeps-bind (Keeps-lift _) (λ sequence.
      Keeps-bind (Keeps-lift _) (λ activated. Keeps-bind (Keeps-lift _) (λ snapshot.
        Keeps-bind (Keeps-lift _) (λ stored.
          Keeps-bind (statement-IsTrail s.appender.host old _ (insert_policy_logs _)) (λ _.
            Keeps-bind (Keeps-modify _ (write_audit_log-IsTrail s.appender.host _ old))
              (λ _. Keeps-pure _))))))

  pub activate_policy-IsTrail :
      (old : Db) (input : ActivatePolicyInput)
      → Keeps (IsTrail s.appender.host old) (activate_policy s input)
  unfolding activate_policy
  activate_policy-IsTrail old input = Keeps-bind (Keeps-lift _) (λ policy.
      Keeps-bind (Keeps-lift _) (λ event. Keeps-bind (Keeps-lift _) (λ _.
        Keeps-bind (Keeps-lift _) (λ _.
          Keeps-bind (record { at = append_now-IsTrail s.appender _ old })
            (λ ack. store_policy-IsTrail old input policy ack)))))
