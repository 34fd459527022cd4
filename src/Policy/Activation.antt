-- ===== src/Policy/Activation.antt =====
-- `PolicyService` of server/src/policy/service.ts: the activation and the reading of a policy version.
use vorcaro_ledger.Prelude.{
  find, ℕ, Bool, ◌&&◌, ◌||◌, not, Option, none, some, ◌∷◌, Text, codes, text_eq, ◌==◌, any,
  if◌then◌else◌,
}
use vorcaro_ledger.Prelude.Int.{pos}
use vorcaro_ledger.Protocol.Types.{
  ErrorCode, EventStatus, EventType, ObjectType, AuditCategory, event_type_eq, object_type_eq,
}
use vorcaro_ledger.Protocol.Result.{Result, ok, err, coded, sql_error, guard}
use vorcaro_ledger.Protocol.Decimal.{decimal}
use vorcaro_ledger.Protocol.Canonical.{number, str, obj, end, field}
use vorcaro_ledger.Protocol.Envelope.{PolicyMetadata, ClientEventEnvelope, ServerAck}
use vorcaro_ledger.Protocol.Schema.{is_present, parse_envelope}
use vorcaro_ledger.Database.Tables.{Db, PolicyRow}
use vorcaro_ledger.Database.Action.{Action, pure, lift, modify, attempt, ◌>>=◌, ◌>>◌}
use vorcaro_ledger.Database.Select.{to_sql_integer}
use vorcaro_ledger.Ledger.Append.{Appender}
use vorcaro_ledger.Ledger.Admission.{append_now}
use vorcaro_ledger.Audit.{write_audit_log}
use vorcaro_ledger.Policy.Document.{PolicyDocument}
use vorcaro_ledger.Policy.Snapshot.{
  DefaultCurrencySnapshot, assert_document_hash, default_currency_snapshot,
}
use vorcaro_ledger.Policy.Stored.{serialize_policy_document, read_policy_document, read_optional}
use vorcaro_ledger.Policy.Schema.{parse_policy_document}

pub record ActivatePolicyInput : Type 0 where
  pub policy : PolicyDocument
  pub activation_event : ClientEventEnvelope
  pub certificate_fingerprint : Text
  pub activated_by : Text

pub record ActivatePolicyResult : Type 0 where
  pub policy : PolicyDocument
  pub acknowledgement : ServerAck

-- The service's options, and what its `now()` returns during the call.
pub record PolicyService : Type 0 where
  pub appender : Appender
  pub now : Text

-- `Object.keys(metadata).length === 0`
unfoldable pub has_no_keys : PolicyMetadata → Bool
has_no_keys m = not (
    is_present m.account_id
    || is_present m.counterparty_account_id
    || is_present m.entity_id
    || is_present m.amount_minor_units
    || is_present m.currency
    || is_present m.transaction_currency
    || is_present m.exchange_rate
    || is_present m.default_currency_snapshot_id
    || is_present m.local_rate)

unfoldable pub assert_activation_event : PolicyDocument → ClientEventEnvelope → Result (Unit {0})
assert_activation_event policy event =
    guard
      (event_type_eq event.event_type EventType.policy_changed
        && object_type_eq event.object_type ObjectType.policy
        && text_eq event.object_id policy.id
        && has_no_keys event.policy_metadata)
      (coded ErrorCode.schema_invalid)

-- The code of an acknowledgement, or POLICY_DENIED.
abbrev denial : Option ErrorCode → ErrorCode
denial (some code) = code
denial none = ErrorCode.policy_denied

-- The sequence number of an accepted event; otherwise the call throws.
unfoldable pub accepted_sequence : EventStatus → Option ℕ → Option ErrorCode → Result ℕ
accepted_sequence EventStatus.accepted (some sequence) code = ok sequence
accepted_sequence _ _ code = err (coded (denial code))

-- PRIMARY KEY (id), UNIQUE (version)
unfoldable pub insert_policy : PolicyRow → Db → Result Db
insert_policy new db =
    if any (λ p. text_eq p.id new.id || p.version == new.version) db.policies
    then err sql_error
    else ok (record db { policies = new ∷ db.policies })

unfoldable pub policy_row : PolicyDocument → DefaultCurrencySnapshot → ℕ → PolicyRow
policy_row policy snapshot sequence = record {
  id = policy.id;
  version = policy.version;
  default_currency = policy.default_currency;
  default_currency_snapshot_id = snapshot.id;
  default_currency_snapshot_hash = snapshot.hash;
  document = serialize_policy_document policy;
  document_hash = policy.document_hash;
  activated_at_sequence = some sequence;
}

-- `policyDocument`: the document of a version.
unfoldable pub policy_document : ℕ → Db → Result (Option PolicyDocument)
policy_document version db =
    read_optional (λ p. read_policy_document p.document)
      (find (λ p. p.version == version) db.policies)

module _ (s : PolicyService) where
  unfoldable pub audit_activation :
      ActivatePolicyInput → PolicyDocument → DefaultCurrencySnapshot → ℕ → Db → Db
  audit_activation input policy snapshot sequence = write_audit_log s.appender.host (record {
    category = AuditCategory.admin;
    actor = input.activated_by;
    detail = obj (
        field (codes "event") (str (codes "policy_activated")) (
          field (codes "policy_id") (str policy.id) (
            field (codes "policy_version") (number (pos policy.version)) (
              field (codes "default_currency") (str policy.default_currency) (
                field (codes "default_currency_snapshot_id") (str snapshot.id)
                  (field (codes "activated_at_sequence") (str (decimal sequence)) end))))));
    created_at = s.now;
  })

  -- What stands behind the append; there is no transaction around the two.
  unfoldable pub store_policy :
      ActivatePolicyInput → PolicyDocument → ServerAck → Action ActivatePolicyResult
  store_policy input policy ack = do
    sequence ←
        lift (
          accepted_sequence ack.unsigned.status ack.unsigned.server_sequence
            ack.unsigned.error_code)
    activated ←
        lift (parse_policy_document (record policy { activated_at_sequence = some sequence }))
    snapshot ← lift (default_currency_snapshot s.appender.host activated)
    stored ← lift (to_sql_integer sequence)
    attempt (insert_policy (policy_row activated snapshot stored))
    modify (audit_activation input activated snapshot sequence)
    pure (record { policy = activated; acknowledgement = ack })

  unfoldable pub activate_policy : ActivatePolicyInput → Action ActivatePolicyResult
  activate_policy input = do
    policy ← lift (parse_policy_document input.policy)
    event ← lift (parse_envelope s.appender.host.is_datetime input.activation_event)
    lift (assert_document_hash s.appender.host policy)
    lift (assert_activation_event policy event)
    ack ←
        append_now s.appender
          (record { event = event; certificate_fingerprint = input.certificate_fingerprint })
    store_policy input policy ack
