-- ===== src/Protocol/Spelling.antt =====
-- The texts that the enumerations of packages/protocol/src/schemas.ts stand for.
use vorcaro_ledger.Prelude.{Text, codes}
use vorcaro_ledger.Protocol.Types.{
  AuditCategory, EventStatus, EventType, ObjectType, ErrorCode, Role,
}

unfoldable pub event_status_text : EventStatus → Text
event_status_text EventStatus.pending = codes "pending"
event_status_text EventStatus.accepted = codes "accepted"
event_status_text EventStatus.rejected = codes "rejected"
event_status_text EventStatus.conflicted = codes "conflicted"
event_status_text EventStatus.quarantined = codes "quarantined"

unfoldable pub event_type_text : EventType → Text
event_type_text EventType.account_created = codes "ACCOUNT_CREATED"
event_type_text EventType.account_updated = codes "ACCOUNT_UPDATED"
event_type_text EventType.account_closed = codes "ACCOUNT_CLOSED"
event_type_text EventType.bank_statement_imported = codes "BANK_STATEMENT_IMPORTED"
event_type_text EventType.transaction_recorded = codes "TRANSACTION_RECORDED"
event_type_text EventType.transaction_classified = codes "TRANSACTION_CLASSIFIED"
event_type_text EventType.internal_transfer_recorded = codes "INTERNAL_TRANSFER_RECORDED"
event_type_text EventType.forecast_created = codes "FORECAST_CREATED"
event_type_text EventType.forecast_adjusted = codes "FORECAST_ADJUSTED"
event_type_text EventType.budget_created = codes "BUDGET_CREATED"
event_type_text EventType.budget_approved = codes "BUDGET_APPROVED"
event_type_text EventType.budget_overridden = codes "BUDGET_OVERRIDDEN"
event_type_text EventType.payment_requested = codes "PAYMENT_REQUESTED"
event_type_text EventType.payment_approval_created = codes "PAYMENT_APPROVAL_CREATED"
event_type_text EventType.payment_approved = codes "PAYMENT_APPROVED"
event_type_text EventType.payment_rejected = codes "PAYMENT_REJECTED"
event_type_text EventType.vendor_created = codes "VENDOR_CREATED"
event_type_text EventType.vendor_updated = codes "VENDOR_UPDATED"
event_type_text EventType.reconciliation_completed = codes "RECONCILIATION_COMPLETED"
event_type_text EventType.attachment_added = codes "ATTACHMENT_ADDED"
event_type_text EventType.data_exported = codes "DATA_EXPORTED"
event_type_text EventType.conflict_resolved = codes "CONFLICT_RESOLVED"
event_type_text EventType.status_transition = codes "STATUS_TRANSITION"
event_type_text EventType.policy_changed = codes "POLICY_CHANGED"
event_type_text EventType.device_enrolled = codes "DEVICE_ENROLLED"
event_type_text EventType.device_revoked = codes "DEVICE_REVOKED"
event_type_text EventType.key_rotated = codes "KEY_ROTATED"
event_type_text EventType.recovery_performed = codes "RECOVERY_PERFORMED"

unfoldable pub object_type_text : ObjectType → Text
object_type_text ObjectType.account = codes "account"
object_type_text ObjectType.transaction = codes "transaction"
object_type_text ObjectType.budget = codes "budget"
object_type_text ObjectType.forecast = codes "forecast"
object_type_text ObjectType.approval = codes "approval"
object_type_text ObjectType.vendor = codes "vendor"
object_type_text ObjectType.financial_entity = codes "financial_entity"
object_type_text ObjectType.attachment = codes "attachment"
object_type_text ObjectType.conflict = codes "conflict"
object_type_text ObjectType.policy = codes "policy"
object_type_text ObjectType.device = codes "device"
object_type_text ObjectType.executive_key = codes "executive_key"
object_type_text ObjectType.export = codes "export"

unfoldable pub error_code_text : ErrorCode → Text
error_code_text ErrorCode.cert_revoked = codes "CERT_REVOKED"
error_code_text ErrorCode.cert_unknown = codes "CERT_UNKNOWN"
error_code_text ErrorCode.executive_inactive = codes "EXECUTIVE_INACTIVE"
error_code_text ErrorCode.replay_counter = codes "REPLAY_COUNTER"
error_code_text ErrorCode.duplicate_event = codes "DUPLICATE_EVENT"
error_code_text ErrorCode.bad_signature = codes "BAD_SIGNATURE"
error_code_text ErrorCode.bad_payload_hash = codes "BAD_PAYLOAD_HASH"
error_code_text ErrorCode.schema_invalid = codes "SCHEMA_INVALID"
error_code_text ErrorCode.stale_base = codes "STALE_BASE"
error_code_text ErrorCode.conflict = codes "CONFLICT"
error_code_text ErrorCode.policy_denied = codes "POLICY_DENIED"
error_code_text ErrorCode.approvals_required = codes "APPROVALS_REQUIRED"
error_code_text ErrorCode.unknown_account = codes "UNKNOWN_ACCOUNT"
error_code_text ErrorCode.account_closed = codes "ACCOUNT_CLOSED"
error_code_text ErrorCode.policy_version_mismatch = codes "POLICY_VERSION_MISMATCH"

unfoldable pub role_text : Role → Text
role_text Role.ceo = codes "CEO"
role_text Role.cfo = codes "CFO"
role_text Role.coo = codes "COO"
role_text Role.treasurer = codes "TREASURER"
role_text Role.general_counsel = codes "GENERAL_COUNSEL"
role_text Role.internal_audit = codes "INTERNAL_AUDIT"
role_text Role.security_recovery_officer = codes "SECURITY_RECOVERY_OFFICER"
role_text Role.finance_controller = codes "FINANCE_CONTROLLER"

unfoldable pub audit_category_text : AuditCategory → Text
audit_category_text AuditCategory.auth = codes "auth"
audit_category_text AuditCategory.sync = codes "sync"
audit_category_text AuditCategory.admin = codes "admin"
audit_category_text AuditCategory.recovery = codes "recovery"
audit_category_text AuditCategory.revocation = codes "revocation"
audit_category_text AuditCategory.export = codes "export"
audit_category_text AuditCategory.ipc_anomaly = codes "ipc_anomaly"
audit_category_text AuditCategory.chain_verification = codes "chain_verification"
audit_category_text AuditCategory.ai_access = codes "ai_access"
