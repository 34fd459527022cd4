-- ===== src/Database/Tables.antt =====
-- The tables of server/migrations/ledger/0001_initial.sql and the row types of server/src. A table
-- is the list of its rows, the newest first; no statement of the server depends on that order,
-- but the one that reads the last row of audit_log.
-- A column of JSON text holds the value that was encoded, an INTEGER CHECK (x IN (0,1)) a Boolean,
-- a BLOB its bytes.
use vorcaro_ledger.Prelude.{ℕ, Bool, Option, List, [], Text, Bytes}
use vorcaro_ledger.Protocol.Types.{
  EventStatus, EventType, ObjectType, ErrorCode, Role, AuditCategory,
}
use vorcaro_ledger.Protocol.Canonical.{CanonicalJson}
use vorcaro_ledger.Protocol.Revocation.{RevocationList}
use vorcaro_ledger.Policy.Stored.{StoredPolicy}

pub data ExecutiveStatus : Type 0 where
  active quarantined deactivated : ExecutiveStatus

pub data DeviceStatus : Type 0 where
  enrolled revoked quarantined : DeviceStatus

pub data ConflictStatus : Type 0 where
  open_conflict resolved : ConflictStatus

abbrev pub is_active : ExecutiveStatus → Bool
is_active ExecutiveStatus.active = Bool.true
is_active _ = Bool.false

abbrev pub is_enrolled : DeviceStatus → Bool
is_enrolled DeviceStatus.enrolled = Bool.true
is_enrolled _ = Bool.false

abbrev pub is_open : ConflictStatus → Bool
is_open ConflictStatus.open_conflict = Bool.true
is_open _ = Bool.false

pub record ExecutiveRow : Type 0 where
  pub id : Text
  pub role : Role
  pub status : ExecutiveStatus
  pub signing_public_key : Text
  pub key_version : ℕ

pub record ExecutiveKeyRow : Type 0 where
  pub executive_id : Text
  pub key_version : ℕ
  pub signing_public_key : Text
  pub valid_from_sequence : ℕ
  pub valid_until_sequence : Option ℕ

pub record DeviceRow : Type 0 where
  pub id : Text
  pub executive_id : Text
  pub certificate_fingerprint : Text
  pub public_key : Text
  pub status : DeviceStatus
  pub hardware_backed : Bool
  pub enrolled_at : Text
  pub revoked_at : Option Text
  pub last_seen_at : Option Text
  pub risk_score : ℕ
  pub max_event_counter : ℕ

-- `stringifyPolicyMetadata`: the replacer turns each bigint into its decimal text.
pub record StoredMetadata : Type 0 where
  pub account_id : Option Text
  pub counterparty_account_id : Option Text
  pub entity_id : Option Text
  pub amount_minor_units : Option Text
  pub currency : Option Text
  pub transaction_currency : Option Text
  pub exchange_rate : Option Text
  pub default_currency_snapshot_id : Option Text
  pub local_rate : Option Text

pub record LedgerEventRow : Type 0 where
  pub id : Text
  pub server_sequence : Option ℕ
  pub event_type : EventType
  pub actor_id : Text
  pub device_id : Text
  pub device_event_counter : ℕ
  pub base_server_sequence : ℕ
  pub object_type : ObjectType
  pub object_id : Text
  pub policy_metadata : StoredMetadata
  pub encrypted_payload : Bytes
  pub payload_hash : Text
  pub previous_ledger_hash : Option Text
  pub resulting_ledger_hash : Option Text
  pub client_signature : Text
  pub server_signature : Text
  pub status : EventStatus
  pub error_code : Option ErrorCode
  pub client_timestamp : Text
  pub server_timestamp : Text
  pub accepted_at : Option Text

pub record ObjectHeadRow : Type 0 where
  pub object_type : ObjectType
  pub object_id : Text
  pub head_sequence : ℕ
  pub conflicted : Bool

pub record ConflictRow : Type 0 where
  pub id : Text
  pub object_type : ObjectType
  pub object_id : Text
  pub event_ids : List Text
  pub detected_at_sequence : ℕ
  pub status : ConflictStatus
  pub resolution_event_id : Option Text
  pub created_at : Text
  pub resolved_at : Option Text

pub record PolicyRow : Type 0 where
  pub id : Text
  pub version : ℕ
  pub default_currency : Text
  pub default_currency_snapshot_id : Text
  pub default_currency_snapshot_hash : Text
  pub document : StoredPolicy
  pub document_hash : Text
  pub activated_at_sequence : Option ℕ

pub data CeremonyStatus : Type 0 where
  open_ceremony threshold_met executed aborted : CeremonyStatus

pub record CeremonyRow : Type 0 where
  pub id : Text
  pub executive_id : Text
  pub initiated_by : Text
  pub new_public_key : Text
  pub status : CeremonyStatus
  pub required_approvals : ℕ
  pub created_at : Text
  pub completed_at : Option Text

pub record ApprovalRow : Type 0 where
  pub ceremony_id : Text
  pub approver_id : Text
  pub approval_signature : Text
  pub created_at : Text

pub data KeyPackageStatus : Type 0 where
  active revoked : KeyPackageStatus

pub record KeyPackageRow : Type 0 where
  pub id : Text
  pub executive_id : Text
  pub key_version : ℕ
  pub wrapped_data_key : Bytes
  pub recovery_wrapped_key : Bytes
  pub status : KeyPackageStatus
  pub created_at : Text
  pub revoked_at : Option Text

-- The row's id, an AUTOINCREMENT, is its place: the newest row has the highest.
pub record AuditRow : Type 0 where
  pub category : AuditCategory
  pub actor : Text
  pub detail : CanonicalJson
  pub previous_hash : Text
  pub entry_hash : Text
  pub created_at : Text

pub record EnrollmentTokenRow : Type 0 where
  pub token_hash : Text
  pub executive_id : Text
  pub issued_by : Text
  pub expires_at : Text
  pub consumed_at : Option Text

pub record EnrollmentChallengeRow : Type 0 where
  pub id : Text
  pub token_hash : Text
  pub executive_id : Text
  pub device_id : Text
  pub public_key : Text
  pub challenge : Text
  pub expires_at : Text
  pub consumed_at : Option Text
  pub created_at : Text

-- `document` holds the list that was encoded.
pub record RevocationListRow : Type 0 where
  pub version : ℕ
  pub document : RevocationList
  pub signature : Text
  pub issued_at : Text

pub record Db : Type 0 where
  pub executives : List ExecutiveRow
  pub executive_keys : List ExecutiveKeyRow
  pub devices : List DeviceRow
  pub ledger_events : List LedgerEventRow
  pub object_heads : List ObjectHeadRow
  pub conflicts : List ConflictRow
  pub policies : List PolicyRow
  pub recovery_ceremonies : List CeremonyRow
  pub recovery_approvals : List ApprovalRow
  pub key_packages : List KeyPackageRow
  pub audit_log : List AuditRow
  pub enrollment_tokens : List EnrollmentTokenRow
  pub enrollment_challenges : List EnrollmentChallengeRow
  pub revocation_list_versions : List RevocationListRow

abbrev pub empty_db : Db
empty_db = record {
  executives = [];
  executive_keys = [];
  devices = [];
  ledger_events = [];
  object_heads = [];
  conflicts = [];
  policies = [];
  recovery_ceremonies = [];
  recovery_approvals = [];
  key_packages = [];
  audit_log = [];
  enrollment_tokens = [];
  enrollment_challenges = [];
  revocation_list_versions = [];
}
