-- ===== src/Recovery/Approval.antt =====
-- What an approval that server/src/recovery/service.ts accepts rests on and leaves.
use vorcaro_ledger.Prelude.{true, false, ◌∷◌, ◌≡◌, text_eq, any, leb, if◌then◌else◌}
use vorcaro_ledger.Protocol.Result.{Result, ok}
use vorcaro_ledger.Protocol.Crypto.{canonical_bytes, verify_bytes}
use vorcaro_ledger.Database.Tables.{Db, CeremonyRow, ExecutiveRow, CeremonyStatus}
use vorcaro_ledger.Database.Action.{after_commit, transaction, ◌>>◌}
use vorcaro_ledger.Recovery.Statements.{same_approval, set_ceremony_status}
use vorcaro_ledger.Recovery.Ceremony.{
  RecoveryService, RecoveryCeremony, ApproveRecoveryInput, get_ceremony, get_executive,
  is_approvable, approval_json, approval_row, approval_count, read_ceremony,
}

module _ (s : RecoveryService) (input : ApproveRecoveryInput) (db db' : Db) where
  pub record Approval : Type 0 where
    pub custodian : any (text_eq input.approver_id) s.policy.custodian_ids ≡ true
    pub ceremony : CeremonyRow
    pub found : get_ceremony input.ceremony_id db ≡ ok ceremony
    pub approvable : is_approvable ceremony.status ≡ true
    pub approver : ExecutiveRow
    pub known : get_executive input.approver_id db ≡ ok approver
    pub verified :
        verify_bytes s.host
          (canonical_bytes s.host (approval_json ceremony))
          input.approval_signature
          approver.signing_public_key
        ≡ true
    pub first : any (same_approval (approval_row s input)) db.recovery_approvals ≡ false
    pub recorded : db'.recovery_approvals ≡ approval_row s input ∷ db.recovery_approvals
    pub moved : db'.recovery_ceremonies ≡ (
        if leb ceremony.required_approvals (approval_count input.ceremony_id db')
        then (set_ceremony_status input.ceremony_id CeremonyStatus.threshold_met
            db).recovery_ceremonies
        else db.recovery_ceremonies)

module _ (s : RecoveryService) (input : ApproveRecoveryInput) (db : Db) (c : RecoveryCeremony)
    (db' : Db) where
  abbrev committed : Result (Unit {0}) × Db → Result RecoveryCeremony × Db
  committed r = (transaction (λ _. r) >> after_commit (read_ceremony s input.ceremony_id)) db
