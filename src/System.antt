-- ===== src/System.antt =====
-- The calls that write to the one database of server/src/main.ts, in any order: the appender of
-- server/src/ledger/appender.ts and the services of server/src/recovery/service.ts,
-- server/src/pki/enrollment.ts and server/src/policy/service.ts.
use vorcaro_ledger.Prelude.{[], ◌≡◌, refl, subst, Extends}
use vorcaro_ledger.Protocol.Crypto.{Host}
use vorcaro_ledger.Database.Tables.{Db}
use vorcaro_ledger.Database.Action.{Action}
use vorcaro_ledger.Database.Keeps.{Keeps}
use vorcaro_ledger.Ledger.Append.{Appender}
use vorcaro_ledger.Ledger.Admission.{AppendEventRequest, append_now}
use vorcaro_ledger.Ledger.Chain.{IsChain, append_now-IsChain}
use vorcaro_ledger.Ledger.Trail.{append_now-IsTrail}
use vorcaro_ledger.Audit.Chain.{IsAuditChain}
use vorcaro_ledger.Audit.Trail.{IsTrail}
use vorcaro_ledger.Recovery.Ceremony.{
  RecoveryService, InitiateRecoveryInput, ApproveRecoveryInput, initiate_ceremony, approve_ceremony,
}
use vorcaro_ledger.Recovery.Checks.{ExecuteRecoveryInput}
use vorcaro_ledger.Recovery.Execution.{execute_ceremony}
use vorcaro_ledger.Recovery.Chain.{
  initiate_ceremony-IsChain, approve_ceremony-IsChain, execute_ceremony-IsChain,
}
use vorcaro_ledger.Recovery.Trail.{
  initiate_ceremony-IsTrail, approve_ceremony-IsTrail, execute_ceremony-IsTrail,
}
use vorcaro_ledger.Policy.Activation.{
  PolicyService, ActivatePolicyInput, store_policy, activate_policy,
}
use vorcaro_ledger.Policy.Document.{PolicyDocument}
use vorcaro_ledger.Protocol.Envelope.{ServerAck}
use vorcaro_ledger.Policy.Trail.{
  store_policy-IsChain, store_policy-IsTrail, activate_policy-IsChain, activate_policy-IsTrail,
}
use vorcaro_ledger.Enrollment.Service.{
  PkiService, CompleteEnrollmentInput, IssueEnrollmentTokenInput, BeginEnrollmentInput,
  RevokeDeviceInput,
}
use vorcaro_ledger.Enrollment.Tokens.{issue_enrollment_token, begin_enrollment}
use vorcaro_ledger.Enrollment.Completion.{complete_enrollment}
use vorcaro_ledger.Enrollment.Revocation.{revoke_device}
use vorcaro_ledger.Enrollment.Chain.{
  complete_enrollment-IsChain, issue_enrollment_token-IsChain, begin_enrollment-IsChain,
  revoke_device-IsChain,
}
use vorcaro_ledger.Enrollment.Trail.{
  complete_enrollment-IsTrail, issue_enrollment_token-IsTrail, begin_enrollment-IsTrail,
  revoke_device-IsTrail,
}

-- Each call is made with its own clock, random values and options; they all hash with one host.
pub data Call (host : Host) : Type 0 where
  append : (a : Appender) → a.host ≡ host → AppendEventRequest → Call host
  initiate : (s : RecoveryService) → s.host ≡ host → InitiateRecoveryInput → Call host
  approve : (s : RecoveryService) → s.host ≡ host → ApproveRecoveryInput → Call host
  execute : (s : RecoveryService) → s.host ≡ host → ExecuteRecoveryInput → Call host
  issue_token : (s : PkiService) → s.host ≡ host → IssueEnrollmentTokenInput → Call host
  begin : (s : PkiService) → s.host ≡ host → BeginEnrollmentInput → Call host
  complete : (s : PkiService) → s.host ≡ host → CompleteEnrollmentInput → Call host
  revoke : (s : PkiService) → s.host ≡ host → RevokeDeviceInput → Call host
  activate : (s : PolicyService) → s.appender.host ≡ host → ActivatePolicyInput → Call host
  -- What an activation does behind its append, for which it waits while other calls run.
  store :
      (s : PolicyService)
      → s.appender.host ≡ host
      → ActivatePolicyInput
      → PolicyDocument
      → ServerAck
      → Call host

module _ {host : Host} where
  -- The database after the call, which may have thrown.
  unfoldable pub after : Call host → Db → Db
  after (append a same request) db = (append_now a request db).1
  after (initiate s same input) db = (initiate_ceremony s input db).1
  after (approve s same input) db = (approve_ceremony s input db).1
  after (execute s same input) db = (execute_ceremony s input db).1
  after (issue_token s same input) db = (issue_enrollment_token s input db).1
  after (begin s same input) db = (begin_enrollment s input db).1
  after (complete s same input) db = (complete_enrollment s input db).1
  after (revoke s same input) db = (revoke_device s input db).1
  after (activate s same input) db = (activate_policy s input db).1
  after (store s same input policy ack) db = (store_policy s input policy ack db).1

-- The databases that calls lead to from another one.
pub data Reachable (host : Host) (start : Db) : Db → Type 0 where
  at_start : Reachable host start start
  called :
      {db : Db}
      → Reachable host start db
      → (call : Call host) → Reachable host start (after call db)

-- The ledger and the audit log are hash chains.
pub record IsTamperEvident (host : Host) (db : Db) : Type 0 where
  pub ledger : IsChain host db.ledger_events
  pub audit_log : IsAuditChain host db.audit_log

-- They are, and only grew since an earlier database.
record IsHistory (host : Host) (old db : Db) : Type 0 where
  chain : IsChain host db.ledger_events
  trail : IsTrail host old db

-- What a method of a service keeps, under the host of the service.
both :
    {A : Type 0} {host own : Host} {old : Db} (m : Action A) (db : Db)
    → own ≡ host
    → (IsChain own db.ledger_events → IsChain own (m db).1.ledger_events)
    → Keeps (IsTrail own old) m
    → IsHistory host old db
    → IsHistory host old (m db).1
both {own} {old} m db same chain trail =
    subst (λ h. IsHistory h old db → IsHistory h old (m db).1) same
      (λ h. record { chain = chain h.chain; trail = trail.at db h.trail })

module _ {host : Host} (old : Db) where
  after-IsHistory :
      (call : Call host) (db : Db) → IsHistory host old db → IsHistory host old (after call db)
  unfolding after
  after-IsHistory (append a same request) db =
      both (append_now a request) db same (append_now-IsChain a request db)
        (record { at = append_now-IsTrail a request old })
  after-IsHistory (initiate s same input) db =
      both (initiate_ceremony s input) db same (initiate_ceremony-IsChain s input db)
        (initiate_ceremony-IsTrail s old input)
  after-IsHistory (approve s same input) db =
      both (approve_ceremony s input) db same (approve_ceremony-IsChain s input db)
        (approve_ceremony-IsTrail s old input)
  after-IsHistory (execute s same input) db =
      both (execute_ceremony s input) db same (execute_ceremony-IsChain s input db)
        (execute_ceremony-IsTrail s old input)
  after-IsHistory (issue_token s same input) db =
      both (issue_enrollment_token s input) db same (issue_enrollment_token-IsChain s input db)
        (issue_enrollment_token-IsTrail s old input)
  after-IsHistory (begin s same input) db =
      both (begin_enrollment s input) db same (begin_enrollment-IsChain s input db)
        (begin_enrollment-IsTrail s old input)
  after-IsHistory (complete s same input) db =
      both (complete_enrollment s input) db same (complete_enrollment-IsChain s input db)
        (complete_enrollment-IsTrail s old input)
  after-IsHistory (revoke s same input) db =
      both (revoke_device s input) db same (revoke_device-IsChain s input db)
        (revoke_device-IsTrail s old input)
  after-IsHistory (activate s same input) db =
      both (activate_policy s input) db same (activate_policy-IsChain s input db)
        (activate_policy-IsTrail s old input)
  after-IsHistory (store s same input policy ack) db =
      both (store_policy s input policy ack) db same (store_policy-IsChain s input policy ack db)
        (store_policy-IsTrail s old input policy ack)

Reachable-IsHistory :
    {host : Host} {start db : Db}
    → IsTamperEvident host start
    → Reachable host start db
    → IsHistory host start db
Reachable-IsHistory h at_start = record {
  chain = h.ledger;
  trail = (h.audit_log, ([], refl), ([], refl));
}
Reachable-IsHistory {start} h (called {db} before call) =
    after-IsHistory start call db (Reachable-IsHistory h before)

-- From a database whose ledger and audit log are hash chains, whatever calls of the appender, of the
-- recovery service, of the enrollment service and of the policy service follow, in whatever order,
-- and whether each of them returns or throws, the ledger stays numbered without a gap and hash-linked and the audit log
-- hash-linked, and each row that was in one of the two stays in its place.
pub Reachable-IsTamperEvident :
    {host : Host} {start db : Db}
    → IsTamperEvident host start
    → Reachable host start db
    → IsTamperEvident host db
      × Extends start.ledger_events db.ledger_events
      × Extends start.audit_log db.audit_log
Reachable-IsTamperEvident h reached =
    let history = Reachable-IsHistory h reached in
    let (chain, log, ledger) = history.trail in
    (record { ledger = history.chain; audit_log = chain }, ledger, log)
