-- ===== src/Audit/Chain.antt =====
-- The hash chain of the audit log of server/src/api/audit.ts.
use vorcaro_ledger.Prelude.{List, [], ◌∷◌, ◌≡◌, refl}
use vorcaro_ledger.Protocol.Crypto.{Host}
use vorcaro_ledger.Database.Tables.{Db, AuditRow}
use vorcaro_ledger.Audit.{WriteAuditInput, previous_audit_hash, entry_hash, write_audit_log}

abbrev pub input_of : AuditRow → WriteAuditInput
input_of row = record {
  category = row.category;
  actor = row.actor;
  detail = row.detail;
  created_at = row.created_at;
}

-- Each row has the hash of the row before it, and its own binds that hash to its contents.
abbrev pub IsAuditChain : Host → List AuditRow → Type 0
IsAuditChain host [] = Unit
IsAuditChain host (row ∷ rows) =
    (row.previous_hash ≡ previous_audit_hash rows)
    × (row.entry_hash ≡ entry_hash host row.previous_hash (input_of row))
    × IsAuditChain host rows

pub write_audit_log-IsAuditChain :
    (host : Host) (input : WriteAuditInput) (db : Db)
    → IsAuditChain host db.audit_log
    → IsAuditChain host (write_audit_log host input db).audit_log
unfolding write_audit_log
write_audit_log-IsAuditChain host input db chain = (refl, refl, chain)
