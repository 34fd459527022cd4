-- ===== src/Protocol/Types.antt =====
-- The enumerations of packages/protocol/src/schemas.ts.
use vorcaro_ledger.Prelude.{Bool, is_yes}

pub data EventStatus : Type 0 where
  pending accepted rejected conflicted quarantined : EventStatus

pub data EventType : Type 0 where
  account_created account_updated account_closed bank_statement_imported : EventType
  transaction_recorded transaction_classified internal_transfer_recorded : EventType
  forecast_created forecast_adjusted budget_created budget_approved budget_overridden : EventType
  payment_requested payment_approval_created payment_approved payment_rejected : EventType
  vendor_created vendor_updated reconciliation_completed attachment_added data_exported : EventType
  conflict_resolved status_transition policy_changed device_enrolled device_revoked : EventType
  key_rotated recovery_performed : EventType

pub data ObjectType : Type 0 where
  account transaction budget forecast approval vendor financial_entity attachment : ObjectType
  conflict policy device executive_key export : ObjectType

pub data ErrorCode : Type 0 where
  cert_revoked cert_unknown executive_inactive replay_counter duplicate_event : ErrorCode
  bad_signature bad_payload_hash schema_invalid stale_base conflict policy_denied : ErrorCode
  approvals_required unknown_account account_closed policy_version_mismatch : ErrorCode

pub data Role : Type 0 where
  ceo cfo coo treasurer general_counsel internal_audit security_recovery_officer : Role
  finance_controller : Role

pub data AuditCategory : Type 0 where
  auth sync admin recovery revocation export ipc_anomaly chain_verification : AuditCategory
  ai_access : AuditCategory

unfoldable pub EventStatus-discrete : Discrete EventStatus
EventStatus-discrete = hlevel

unfoldable pub EventType-discrete : Discrete EventType
EventType-discrete = hlevel

unfoldable pub ObjectType-discrete : Discrete ObjectType
ObjectType-discrete = hlevel

unfoldable pub Role-discrete : Discrete Role
Role-discrete = hlevel

-- `===` on the enumerations
abbrev pub event_type_eq : EventType → EventType → Bool
event_type_eq a b = is_yes (EventType-discrete a b)

abbrev pub object_type_eq : ObjectType → ObjectType → Bool
object_type_eq a b = is_yes (ObjectType-discrete a b)

abbrev pub role_eq : Role → Role → Bool
role_eq a b = is_yes (Role-discrete a b)
