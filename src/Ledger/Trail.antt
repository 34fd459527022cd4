-- ===== src/Ledger/Trail.antt =====
-- `appendNow` of server/src/ledger/appender.ts leaves the audit log as it is, and only adds to the ledger.
use vorcaro_ledger.Prelude.{◌≡◌, refl, ap}
use vorcaro_ledger.Protocol.Result.{Result}
use vorcaro_ledger.Protocol.Envelope.{ServerAck}
use vorcaro_ledger.Database.Tables.{Db}
use vorcaro_ledger.Ledger.Append.{Appender}
use vorcaro_ledger.Ledger.Admission.{AppendEventRequest, append_now}
use vorcaro_ledger.Ledger.Frame.{Appended-frame}
use vorcaro_ledger.Ledger.Outcome.{Outcome, thrown, repeated, refused, written}
use vorcaro_ledger.Ledger.Queue.Invariants.{append_now-Extends}
use vorcaro_ledger.Audit.Trail.{IsTrail}
use vorcaro_ledger.Ledger.Outcome.Cases.{append_now-Outcome}

module _ (a : Appender) (request : AppendEventRequest) (db : Db) where
  Outcome-audit_log :
      (r : Result ServerAck × Db) → Outcome a request db r → r.1.audit_log ≡ db.audit_log
  Outcome-audit_log r (thrown e same) = rw same refl
  Outcome-audit_log r (repeated row seen same) = rw same refl
  Outcome-audit_log r (refused code ack new signed same) = rw same refl
  Outcome-audit_log r (written status code ack db' valid new ruling done same) =
      let rows =
        ap (λ (d : Db). d.audit_log) (Appended-frame a request.event status code db ack db' done) in
      rw same rows

  append_now-audit_log : (append_now a request db).1.audit_log ≡ db.audit_log
  append_now-audit_log =
      Outcome-audit_log (append_now a request db) (append_now-Outcome a request db)

  Outcome-policies :
      (r : Result ServerAck × Db) → Outcome a request db r → r.1.policies ≡ db.policies
  Outcome-policies r (thrown e same) = rw same refl
  Outcome-policies r (repeated row seen same) = rw same refl
  Outcome-policies r (refused code ack new signed same) = rw same refl
  Outcome-policies r (written status code ack db' valid new ruling done same) =
      let rows =
        ap (λ (d : Db). d.policies) (Appended-frame a request.event status code db ack db' done) in
      rw same rows

  -- Nor does it touch the policies.
  pub append_now-policies : (append_now a request db).1.policies ≡ db.policies
  append_now-policies = Outcome-policies (append_now a request db) (append_now-Outcome a request db)

pub append_now-IsTrail :
    (a : Appender) (request : AppendEventRequest) (old db : Db)
    → IsTrail a.host old db
    → IsTrail a.host old (append_now a request db).1
append_now-IsTrail a request old db (chain, log, ledger) = (
  rw (append_now-audit_log a request db) chain,
  rw (append_now-audit_log a request db) log,
  append_now-Extends a request db old.ledger_events ledger,
)
