-- ===== src/Enrollment/Revocation.antt =====
-- `revokeDevice` and `writeRevocationList` of server/src/pki/enrollment.ts.
use vorcaro_ledger.Prelude.{ℕ, ◌+◌, Option, none, some, List, [], ◌∷◌, Text, codes}
use vorcaro_ledger.Prelude.Int.{pos}
use vorcaro_ledger.Protocol.Types.{ErrorCode, AuditCategory}
use vorcaro_ledger.Protocol.Result.{Result, ok, err, coded}
use vorcaro_ledger.Protocol.Canonical.{
  CanonicalJson, Items, number, str, arr, obj, nil, cons, end, field,
}
use vorcaro_ledger.Protocol.Revocation.{RevocationList, parse_revocation_list}
use vorcaro_ledger.Protocol.Crypto.{canonical_bytes, sign_bytes}
use vorcaro_ledger.Database.Tables.{DeviceRow}
use vorcaro_ledger.Database.Action.{
  Action, pure, lift, gets, modify, attempt, transaction, ◌>>=◌, ◌>>◌,
}
use vorcaro_ledger.Database.Select.{find_device}
use vorcaro_ledger.Enrollment.Service.{PkiService, RevokeDeviceInput}
use vorcaro_ledger.Enrollment.Statements.{
  revoke_device_row, revoked_device_ids_of, max_version, insert_revocation_list,
}
use vorcaro_ledger.Enrollment.Tokens.{audit_as}

abbrev texts_json : List Text → Items
texts_json [] = nil
texts_json (t ∷ ts) = cons (str t) (texts_json ts)

unfoldable pub revocation_json : ℕ → List Text → Text → CanonicalJson
revocation_json version ids issued_at = obj (
    field (codes "version") (number (pos version)) (
      field (codes "revoked_device_ids") (arr (texts_json ids)) (
        field (codes "revoked_key_versions") (arr nil) (
          field (codes "wipe_directives") (arr nil)
            (field (codes "issued_at") (str issued_at) end)))))

module _ (s : PkiService) where
  unfoldable pub sign_revocation_list : ℕ → List Text → Result RevocationList
  sign_revocation_list version ids =
      elim (sign_bytes s.host (canonical_bytes s.host (revocation_json version ids s.now))
        s.server_signing_secret_key) [
          | err e ↦ err e
          | ok signature ↦ parse_revocation_list s.host.is_datetime (record {
            version = version;
            revoked_device_ids = ids;
            revoked_key_versions = [];
            wipe_directives = [];
            issued_at = s.now;
            signature = signature;
          })
        ]

  unfoldable pub write_revocation_list : Action RevocationList
  write_revocation_list = do
    current ← gets (λ db. max_version db.revocation_list_versions)
    ids ← gets (revoked_device_ids_of s.host)
    list ← lift (sign_revocation_list (current + 1) ids)
    attempt (
        insert_revocation_list (record {
          version = list.version;
          document = list;
          signature = list.signature;
          issued_at = list.issued_at;
        }))
    pure list

  unfoldable pub revocation_statements : RevokeDeviceInput → DeviceRow → Action RevocationList
  revocation_statements input device = do
    lift (
        s.certificate_authority.revoke_device_certificate (record {
          device_id = device.id;
          certificate_fingerprint = device.certificate_fingerprint;
          revoked_at = s.now;
          reason = input.reason;
        }))
    modify (revoke_device_row input.device_id s.now)
    list ← write_revocation_list
    modify (
        audit_as s AuditCategory.revocation input.revoked_by (
          field (codes "event") (str (codes "device_revoked")) (
            field (codes "device_id") (str input.device_id) (
              field (codes "reason") (str input.reason)
                (field (codes "revocation_list_version") (number (pos list.version)) end)))))
    pure list

  abbrev pub known_device : Option DeviceRow → Result DeviceRow
  known_device none = err (coded ErrorCode.cert_unknown)
  known_device (some device) = ok device

  unfoldable pub revoke_device : RevokeDeviceInput → Action RevocationList
  revoke_device input = do
    device ← λ db. (known_device (find_device input.device_id db), db)
    transaction (revocation_statements input device)
