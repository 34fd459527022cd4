-- ===== src/Audit/Trail.antt =====
-- The hash chain of the audit log of server/src/api/audit.ts under the statements of a method.
use vorcaro_ledger.Prelude.{◌∷◌, ◌≡◌, arith, Extends, extended}
use vorcaro_ledger.Protocol.Result.{Result, ok}
use vorcaro_ledger.Protocol.Crypto.{Host}
use vorcaro_ledger.Database.Tables.{Db, LedgerEventRow}
use vorcaro_ledger.Database.Action.{attempt}
use vorcaro_ledger.Database.Insert.{insert_event}
use vorcaro_ledger.Database.Keeps.{Keeps, Keeps-lift, Keeps-attempt, Keeps-bind}
use vorcaro_ledger.Ledger.Rows.{InsertInput, row_of}
use vorcaro_ledger.Ledger.Append.{insert_ledger_event}
use vorcaro_ledger.Audit.{WriteAuditInput, write_audit_log}
use vorcaro_ledger.Audit.Chain.{IsAuditChain, write_audit_log-IsAuditChain}

-- The audit log of the database is a chain, and neither it nor the ledger has lost or changed a row
-- that was in an earlier database.
abbrev pub IsTrail : Host → Db → Db → Type 0
IsTrail host old db =
    IsAuditChain host db.audit_log
    × Extends old.audit_log db.audit_log
    × Extends old.ledger_events db.ledger_events

abbrev pub SameLogs : Db → Db → Type 0
SameLogs db db' = (db'.audit_log ≡ db.audit_log) × (db'.ledger_events ≡ db.ledger_events)

pub same_logs :
    (host : Host) (old db db' : Db) → SameLogs db db' → IsTrail host old db → IsTrail host old db'
same_logs host old db db' (audits, events) (chain, log, ledger) =
    (rw audits chain, rw audits log, rw events ledger)

-- A statement that leaves the audit log and the ledger as they are.
pub statement-IsTrail :
    (host : Host) (old : Db) (f : Db → Result Db)
    → ((db db' : Db) → f db ≡ ok db' → SameLogs db db')
    → Keeps (IsTrail host old) (attempt f)
statement-IsTrail host old f same =
    Keeps-attempt f (λ db db' is trail. same_logs host old db db' (same db db' is) trail)

pub write_audit_log-IsTrail :
    (host : Host) (input : WriteAuditInput) (old db : Db)
    → IsTrail host old db
    → IsTrail host old (write_audit_log host input db)
unfolding write_audit_log
write_audit_log-IsTrail host input old db (chain, log, ledger) =
    (write_audit_log-IsAuditChain host input db chain, extended _ log, ledger)

insert_event-audit_log :
    (new : LedgerEventRow) (db db' : Db)
    → insert_event new db ≡ ok db'
    → db'.audit_log ≡ db.audit_log
unfolding insert_event
insert_event-audit_log new db db' is = ground arith

insert_event-ledger_events :
    (new : LedgerEventRow) (db db' : Db)
    → insert_event new db ≡ ok db'
    → db'.ledger_events ≡ new ∷ db.ledger_events
unfolding insert_event
insert_event-ledger_events new db db' is = ground arith

pub insert_ledger_event-IsTrail :
    (host : Host) (old : Db) (input : InsertInput)
    → Keeps (IsTrail host old) (insert_ledger_event host input)
unfolding insert_ledger_event
insert_ledger_event-IsTrail host old input = Keeps-bind (Keeps-lift _) (λ _.
    Keeps-bind (Keeps-lift _) (λ _. Keeps-attempt _ (λ db db' is (chain, log, ledger). (
      rw (insert_event-audit_log (row_of host input) db db' is) chain,
      rw (insert_event-audit_log (row_of host input) db db' is) log,
      rw (insert_event-ledger_events (row_of host input) db db' is) (extended _ ledger),
    ))))
