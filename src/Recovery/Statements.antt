-- ===== src/Recovery/Statements.antt =====
-- The INSERT and UPDATE statements of server/src/recovery/service.ts, with the constraints of the
-- schema.
use vorcaro_ledger.Prelude.{
  ℕ, Bool, true, false, ◌&&◌, not, some, ◌∷◌, Text, text_eq, ◌==◌, any, update_where, if◌then◌else◌,
}
use vorcaro_ledger.Protocol.Result.{Result, ok, err, sql_error}
use vorcaro_ledger.Database.Tables.{
  Db, ExecutiveKeyRow, CeremonyRow, ApprovalRow, KeyPackageRow, ExecutiveStatus, DeviceStatus,
  CeremonyStatus, KeyPackageStatus, is_enrolled,
}

abbrev pub is_package_active : KeyPackageStatus → Bool
is_package_active KeyPackageStatus.active = true
is_package_active KeyPackageStatus.revoked = false

unfoldable pub is_executive : Text → Db → Bool
is_executive executive_id db = any (λ e. text_eq e.id executive_id) db.executives

-- PRIMARY KEY (id), and the executive exists.
unfoldable pub insert_ceremony : CeremonyRow → Db → Result Db
insert_ceremony new db =
    if not (any (λ c. text_eq c.id new.id) db.recovery_ceremonies)
      && is_executive new.executive_id db
    then ok (record db { recovery_ceremonies = new ∷ db.recovery_ceremonies })
    else err sql_error

abbrev pub same_approval : ApprovalRow → ApprovalRow → Bool
same_approval new a = text_eq a.ceremony_id new.ceremony_id && text_eq a.approver_id new.approver_id

-- PRIMARY KEY (ceremony_id, approver_id), and the ceremony exists.
unfoldable pub insert_approval : ApprovalRow → Db → Result Db
insert_approval new db =
    if not (any (same_approval new) db.recovery_approvals)
      && any (λ c. text_eq c.id new.ceremony_id) db.recovery_ceremonies
    then ok (record db { recovery_approvals = new ∷ db.recovery_approvals })
    else err sql_error

-- PRIMARY KEY (executive_id, key_version), and the executive exists.
unfoldable pub insert_executive_key : ExecutiveKeyRow → Db → Result Db
insert_executive_key new db =
    if not (
        any (λ k. text_eq k.executive_id new.executive_id && k.key_version == new.key_version)
          db.executive_keys)
      && is_executive new.executive_id db
    then ok (record db { executive_keys = new ∷ db.executive_keys })
    else err sql_error

-- PRIMARY KEY (id), and the executive exists.
unfoldable pub insert_key_package : KeyPackageRow → Db → Result Db
insert_key_package new db =
    if not (any (λ k. text_eq k.id new.id) db.key_packages) && is_executive new.executive_id db
    then ok (record db { key_packages = new ∷ db.key_packages })
    else err sql_error

unfoldable pub set_ceremony_status : Text → CeremonyStatus → Db → Db
set_ceremony_status ceremony_id status db = record db {
  recovery_ceremonies =
      update_where (λ c. text_eq c.id ceremony_id) (λ c. record c { status = status })
        db.recovery_ceremonies;
}

unfoldable pub complete_ceremony : Text → Text → Db → Db
complete_ceremony ceremony_id now db = record db {
  recovery_ceremonies =
      update_where (λ c. text_eq c.id ceremony_id)
        (λ c. record c { status = CeremonyStatus.executed; completed_at = some now })
        db.recovery_ceremonies;
}

unfoldable pub quarantine_executive : Text → Db → Db
quarantine_executive executive_id db = record db {
  executives =
      update_where (λ e. text_eq e.id executive_id)
        (λ e. record e { status = ExecutiveStatus.quarantined }) db.executives;
}

unfoldable pub quarantine_devices : Text → Text → Db → Db
quarantine_devices executive_id now db = record db {
  devices =
      update_where (λ d. text_eq d.executive_id executive_id && is_enrolled d.status)
        (λ d. record d { status = DeviceStatus.quarantined; last_seen_at = some now }) db.devices;
}

unfoldable pub close_executive_key : Text → ℕ → ℕ → Db → Db
close_executive_key executive_id key_version sequence db = record db {
  executive_keys =
      update_where (λ k. text_eq k.executive_id executive_id && k.key_version == key_version)
        (λ k. record k { valid_until_sequence = some sequence }) db.executive_keys;
}

unfoldable pub activate_executive : Text → Text → ℕ → Db → Db
activate_executive executive_id public_key key_version db = record db {
  executives =
      update_where (λ e. text_eq e.id executive_id)
        (λ e. record e {
          signing_public_key = public_key;
          key_version = key_version;
          status = ExecutiveStatus.active;
        })
        db.executives;
}

abbrev pub is_package_of : Text → ℕ → KeyPackageRow → Bool
is_package_of executive_id key_version k =
    text_eq k.executive_id executive_id
    && k.key_version == key_version
    && is_package_active k.status

unfoldable pub revoke_key_packages : Text → ℕ → Text → Db → Db
revoke_key_packages executive_id key_version revoked_at db = record db {
  key_packages =
      update_where (is_package_of executive_id key_version)
        (λ k. record k { status = KeyPackageStatus.revoked; revoked_at = some revoked_at })
        db.key_packages;
}
