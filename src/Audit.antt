-- ===== src/Audit.antt =====
-- `writeAuditLog` of server/src/api/audit.ts.
pub mod Chain
pub mod Trail
use vorcaro_ledger.Prelude.{List, [], ◌∷◌, ◌++◌, Text, codes}
use vorcaro_ledger.Protocol.Types.{AuditCategory}
use vorcaro_ledger.Protocol.Spelling.{audit_category_text}
use vorcaro_ledger.Protocol.Canonical.{CanonicalJson, str, obj, end, field}
use vorcaro_ledger.Protocol.Crypto.{Host, sha256_digest, canonical_bytes}
use vorcaro_ledger.Database.Tables.{Db, AuditRow}
use vorcaro_ledger.Database.Select.{genesis_ledger_hash}

pub record WriteAuditInput : Type 0 where
  pub category : AuditCategory
  pub actor : Text
  pub detail : CanonicalJson
  pub created_at : Text

-- `SELECT entry_hash FROM audit_log ORDER BY id DESC LIMIT 1`, or the genesis hash.
unfoldable pub previous_audit_hash : List AuditRow → Text
previous_audit_hash [] = genesis_ledger_hash
previous_audit_hash (row ∷ rows) = row.entry_hash

unfoldable pub audit_json : WriteAuditInput → CanonicalJson
audit_json input = obj (
    field (codes "category") (str (audit_category_text input.category)) (
      field (codes "actor") (str input.actor) (
        field (codes "detail") input.detail
          (field (codes "created_at") (str input.created_at) end))))

unfoldable pub entry_hash : Host → Text → WriteAuditInput → Text
entry_hash host previous_hash input =
    sha256_digest host (host.utf8 previous_hash ++ canonical_bytes host (audit_json input))

unfoldable pub write_audit_log : Host → WriteAuditInput → Db → Db
write_audit_log host input db = record db {
  audit_log =
      record {
        category = input.category;
        actor = input.actor;
        detail = input.detail;
        previous_hash = previous_audit_hash db.audit_log;
        entry_hash = entry_hash host (previous_audit_hash db.audit_log) input;
        created_at = input.created_at;
      }
      ∷ db.audit_log;
}
