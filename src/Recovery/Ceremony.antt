-- ===== src/Recovery/Ceremony.antt =====
-- `RecoveryService`, `initiateCeremony` and `approveCeremony` of server/src/recovery/service.ts.
use vorcaro_ledger.Prelude.{
  take, ℕ, Bool, true, false, ◌&&◌, ◌||◌, not, Option, none, some, List, [], ◌∷◌, ◌++◌, Text, Bytes,
  codes, length, text_eq, ltb, leb, ◌==◌, any, find, filter_by, if◌then◌else◌,
}
use vorcaro_ledger.Prelude.Sort.{sort}
use vorcaro_ledger.Protocol.Types.{ErrorCode, AuditCategory}
use vorcaro_ledger.Protocol.Result.{Result, ok, err, coded, zod_error, guard}
use vorcaro_ledger.Protocol.Canonical.{CanonicalJson, Fields, str, obj, end, field}
use vorcaro_ledger.Protocol.Pattern.{is_nonempty, is_base64}
use vorcaro_ledger.Protocol.Schema.{absent_or}
use vorcaro_ledger.Protocol.Crypto.{Host, canonical_bytes, verify_bytes}
use vorcaro_ledger.Database.Tables.{
  Db, ExecutiveRow, CeremonyRow, ApprovalRow, ExecutiveStatus, CeremonyStatus,
}
use vorcaro_ledger.Database.Action.{
  after_commit, Action, lift, modify, attempt, transaction, ◌>>=◌, ◌>>◌,
}
use vorcaro_ledger.Database.Select.{find_executive}
use vorcaro_ledger.Audit.{write_audit_log}
use vorcaro_ledger.Recovery.Statements.{
  insert_ceremony, insert_approval, quarantine_executive, quarantine_devices, set_ceremony_status,
}

-- The interface that the service is given.
pub record KeyManagementService : Type 0 where
  -- `rewrapKey` from a key handle to another, and `signWithKey`
  pub rewrap_key : Text → Text → Bytes → Result Bytes
  pub sign_with_key : Text → Bytes → Result Text

pub record RecoveryPolicyConfig : Type 0 where
  pub required_approvals : ℕ
  pub custodian_ids : List Text

-- The service's options, and what `now()` returns during the call.
pub record RecoveryService : Type 0 where
  pub host : Host
  pub kms : KeyManagementService
  pub server_signing_key_handle : Text
  pub recovery_master_key_handle : Text
  pub policy : RecoveryPolicyConfig
  pub now : Text

-- The constructor's check of the policy.
unfoldable pub assert_policy : RecoveryPolicyConfig → Result (Unit {0})
assert_policy policy =
    guard
      (not (
        leb policy.required_approvals 0
        || ltb (length policy.custodian_ids) policy.required_approvals))
      (coded ErrorCode.policy_denied)

pub record InitiateRecoveryInput : Type 0 where
  pub ceremony_id : Option Text
  pub executive_id : Text
  pub initiated_by : Text
  pub new_public_key : Text

pub record ApproveRecoveryInput : Type 0 where
  pub ceremony_id : Text
  pub approver_id : Text
  pub approval_signature : Text

-- A ceremony as it is returned, with its approvals.
pub record RecoveryCeremony : Type 0 where
  pub row : CeremonyRow
  pub open row use *
  pub approvals : List ApprovalRow

abbrev found_or {ℓ} : {A : Type ℓ} → ErrorCode → Option A → Result A
found_or code none = err (coded code)
found_or code (some a) = ok a

unfoldable pub get_executive : Text → Db → Result ExecutiveRow
get_executive executive_id db =
    found_or ErrorCode.executive_inactive (find_executive executive_id db)

unfoldable pub get_ceremony : Text → Db → Result CeremonyRow
get_ceremony ceremony_id db =
    found_or ErrorCode.schema_invalid (find (λ c. text_eq c.id ceremony_id) db.recovery_ceremonies)

unfoldable pub approvals_of : Text → Db → List ApprovalRow
approvals_of ceremony_id db =
    filter_by (λ a. text_eq a.ceremony_id ceremony_id) db.recovery_approvals

unfoldable pub approval_count : Text → Db → ℕ
approval_count ceremony_id db = length (approvals_of ceremony_id db)

-- `memcmp`, by which SQLite orders texts.
unfoldable pub bytes_le : Bytes → Bytes → Bool
bytes_le [] t = true
bytes_le (a ∷ s) [] = false
bytes_le (a ∷ s) (b ∷ t) = let rest = bytes_le s t in if a == b then rest else ltb a b

unfoldable pub approval_le : Host → ApprovalRow → ApprovalRow → Bool
approval_le host x y =
    if text_eq x.created_at y.created_at
    then bytes_le (host.utf8 x.approver_id) (host.utf8 y.approver_id)
    else bytes_le (host.utf8 x.created_at) (host.utf8 y.created_at)

abbrev all_valid : (ApprovalRow → Bool) → List ApprovalRow → Bool
all_valid p approvals = not (any (λ a. not (p a)) approvals)

unfoldable pub approval_valid : (Text → Bool) → ApprovalRow → Bool
approval_valid is_datetime a =
    is_nonempty a.ceremony_id
    && is_nonempty a.approver_id
    && is_base64 a.approval_signature
    && is_datetime a.created_at

-- `recoveryCeremonySchema`
unfoldable pub ceremony_valid : (Text → Bool) → RecoveryCeremony → Bool
ceremony_valid is_datetime c =
    is_nonempty c.id
    && is_nonempty c.executive_id
    && is_nonempty c.initiated_by
    && is_base64 c.new_public_key
    && ltb 0 c.required_approvals
    && all_valid (approval_valid is_datetime) c.approvals
    && is_datetime c.created_at
    && absent_or is_datetime c.completed_at

unfoldable pub is_approvable : CeremonyStatus → Bool
is_approvable CeremonyStatus.open_ceremony = true
is_approvable CeremonyStatus.threshold_met = true
is_approvable _ = false

unfoldable pub is_deactivated : ExecutiveStatus → Bool
is_deactivated ExecutiveStatus.deactivated = true
is_deactivated _ = false

unfoldable pub approval_json : CeremonyRow → CanonicalJson
approval_json c = obj (
    field (codes "ceremony_id") (str c.id) (
      field (codes "executive_id") (str c.executive_id)
        (field (codes "new_public_key") (str c.new_public_key) end)))

module _ (s : RecoveryService) where
  unfoldable pub assert_custodian : Text → Result (Unit {0})
  assert_custodian custodian_id =
      guard (any (text_eq custodian_id) s.policy.custodian_ids) (coded ErrorCode.policy_denied)

  unfoldable pub read_ceremony : Text → Db → Result RecoveryCeremony
  read_ceremony ceremony_id db = elim (get_ceremony ceremony_id db) [
    | err e ↦ err e
    | ok row ↦
        let ceremony : RecoveryCeremony = record {
          row = row;
          approvals = sort (approval_le s.host) (approvals_of ceremony_id db);
        } in
        if ceremony_valid s.host.is_datetime ceremony then ok ceremony else err zod_error
  ]

  unfoldable pub audit : Text → Fields → Db → Db
  audit actor detail = write_audit_log s.host (record {
    category = AuditCategory.recovery;
    actor = actor;
    detail = obj detail;
    created_at = s.now;
  })

  unfoldable pub ceremony_id_of : InitiateRecoveryInput → Text
  ceremony_id_of input = elim input.ceremony_id [
    | some id ↦ id
    | none ↦
        codes "rcv_"
        ++ take 26 (
            s.host.sha256_hex
              (s.host.utf8 (input.executive_id ++ b':' ∷ input.new_public_key ++ b':' ∷ s.now)))
  ]

  unfoldable pub new_ceremony : InitiateRecoveryInput → CeremonyRow
  new_ceremony input = record {
    id = ceremony_id_of input;
    executive_id = input.executive_id;
    initiated_by = input.initiated_by;
    new_public_key = input.new_public_key;
    status = CeremonyStatus.open_ceremony;
    required_approvals = s.policy.required_approvals;
    created_at = s.now;
    completed_at = none;
  }

  unfoldable pub initiate_statements : InitiateRecoveryInput → Action (Unit {0})
  initiate_statements input = do
    executive ← λ db. (get_executive input.executive_id db, db)
    lift (guard (not (is_deactivated executive.status)) (coded ErrorCode.executive_inactive))
    attempt (insert_ceremony (new_ceremony input))
    modify (quarantine_executive input.executive_id)
    modify (quarantine_devices input.executive_id s.now)
    modify (
        audit input.initiated_by (
          field (codes "event") (str (codes "recovery_ceremony_initiated")) (
            field (codes "ceremony_id") (str (ceremony_id_of input))
              (field (codes "executive_id") (str input.executive_id) end))))

  unfoldable pub initiate_ceremony : InitiateRecoveryInput → Action RecoveryCeremony
  initiate_ceremony input = do
    lift (assert_custodian input.initiated_by)
    transaction (initiate_statements input)
    after_commit (read_ceremony (ceremony_id_of input))

  unfoldable pub assert_approval_signature : CeremonyRow → Text → Text → Db → Result (Unit {0})
  assert_approval_signature ceremony approver_id signature db =
      elim (get_executive approver_id db) [
        | err e ↦ err e
        | ok approver ↦
            guard
              (verify_bytes s.host (canonical_bytes s.host (approval_json ceremony)) signature
                approver.signing_public_key)
              (coded ErrorCode.bad_signature)
      ]

  unfoldable pub reach_threshold : ApproveRecoveryInput → Db → Db
  reach_threshold input db =
      audit input.approver_id
        (field (codes "event") (str (codes "recovery_threshold_met"))
          (field (codes "ceremony_id") (str input.ceremony_id) end))
        (set_ceremony_status input.ceremony_id CeremonyStatus.threshold_met db)

  unfoldable pub check_threshold : ApproveRecoveryInput → CeremonyRow → Db → Db
  check_threshold input ceremony db =
      if leb ceremony.required_approvals (approval_count input.ceremony_id db)
      then reach_threshold input db
      else db

  unfoldable pub approval_row : ApproveRecoveryInput → ApprovalRow
  approval_row input = record {
    ceremony_id = input.ceremony_id;
    approver_id = input.approver_id;
    approval_signature = input.approval_signature;
    created_at = s.now;
  }

  unfoldable pub approve_statements : ApproveRecoveryInput → Action (Unit {0})
  approve_statements input = do
    ceremony ← λ db. (get_ceremony input.ceremony_id db, db)
    lift (guard (is_approvable ceremony.status) (coded ErrorCode.policy_denied))
    λ db. (assert_approval_signature ceremony input.approver_id input.approval_signature db, db)
    attempt (insert_approval (approval_row input))
    modify (
        audit input.approver_id (
          field (codes "event") (str (codes "recovery_approval_submitted"))
            (field (codes "ceremony_id") (str input.ceremony_id) end)))
    modify (check_threshold input ceremony)

  unfoldable pub approve_ceremony : ApproveRecoveryInput → Action RecoveryCeremony
  approve_ceremony input = do
    lift (assert_custodian input.approver_id)
    transaction (approve_statements input)
    after_commit (read_ceremony input.ceremony_id)
