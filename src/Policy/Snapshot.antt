-- ===== src/Policy/Snapshot.antt =====
-- `defaultCurrencySnapshot`, `assertDefaultCurrencySnapshot`, `hashablePolicy`, `documentHash` and
-- `assertDocumentHash` of server/src/policy/engine.ts.
use mathlib.Core.Option
use vorcaro_ledger.Prelude.{take, ℕ, Option, none, some, List, [], ◌∷◌, ◌++◌, Text, codes, text_eq}
use vorcaro_ledger.Prelude.Int.{pos}
use vorcaro_ledger.Protocol.Types.{ErrorCode}
use vorcaro_ledger.Protocol.Result.{Result, ok, err, coded, guard, ◌>>=◌}
use vorcaro_ledger.Protocol.Spelling.{event_type_text, object_type_text, role_text}
use vorcaro_ledger.Protocol.Decimal.{decimal}
use vorcaro_ledger.Protocol.Canonical.{
  CanonicalJson, Items, null, number, bigint, str, arr, obj, nil, cons, end, field, optional_field,
}
use vorcaro_ledger.Protocol.Envelope.{ClientEventEnvelope}
use vorcaro_ledger.Protocol.Crypto.{Host, canonical_bytes, sha256_digest}
use vorcaro_ledger.Policy.Document.{
  PolicyAction, Money, Permission, ApprovalRule, PolicyDocument, read, create, approve, resolve,
  export,
}

pub record DefaultCurrencySnapshot : Type 0 where
  pub id : Text
  pub hash : Text
  pub default_currency : Text
  pub policy_id : Text
  pub policy_hash : Text
  pub effective_sequence : ℕ

abbrev pub items_of {ℓ} : {A : Type ℓ} → (A → CanonicalJson) → List A → Items
items_of f [] = nil
items_of f (x ∷ xs) = cons (f x) (items_of f xs)

unfoldable pub policy_action_text : PolicyAction → Text
policy_action_text read = codes "read"
policy_action_text create = codes "create"
policy_action_text approve = codes "approve"
policy_action_text resolve = codes "resolve"
policy_action_text export = codes "export"

unfoldable pub permission_json : Permission → CanonicalJson
permission_json p = obj (
    field (codes "role") (str (role_text p.role)) (
      field (codes "object_type") (str (object_type_text p.object_type)) (
        field (codes "actions") (arr (items_of (λ a. str (policy_action_text a)) p.actions))
          (optional_field (codes "conditions") (Option.map obj p.conditions) end))))

unfoldable pub money_json : Money → CanonicalJson
money_json m = obj (
    field (codes "amount_minor_units") (bigint m.amount_minor_units)
      (field (codes "currency") (str m.currency) end))

unfoldable pub approval_rule_json : ApprovalRule → CanonicalJson
approval_rule_json r = obj (
    field (codes "event_types") (arr (items_of (λ e. str (event_type_text e)) r.event_types)) (
      optional_field (codes "threshold") (Option.map money_json r.threshold) (
        field (codes "required_roles") (arr (items_of (λ x. str (role_text x)) r.required_roles))
          (field (codes "required_count") (number (pos r.required_count)) end))))

abbrev sequence_or_null : Option ℕ → CanonicalJson
sequence_or_null none = null
sequence_or_null (some n) = bigint (pos n)

unfoldable pub hashable_policy : PolicyDocument → CanonicalJson
hashable_policy policy = obj (
    field (codes "id") (str policy.id) (
      field (codes "version") (number (pos policy.version)) (
        field (codes "default_currency") (str policy.default_currency) (
          field (codes "permissions") (arr (items_of permission_json policy.permissions)) (
            field (codes "approval_rules") (arr (items_of approval_rule_json policy.approval_rules))
              (field (codes "activated_at_sequence") (sequence_or_null policy.activated_at_sequence)
                end))))))

module _ (host : Host) where
  unfoldable pub document_hash : PolicyDocument → Text
  document_hash policy = sha256_digest host (canonical_bytes host (hashable_policy policy))

  unfoldable pub assert_document_hash : PolicyDocument → Result (Unit {0})
  assert_document_hash policy =
      guard (text_eq (document_hash policy) policy.document_hash)
        (coded ErrorCode.policy_version_mismatch)

  unfoldable pub snapshot_at : PolicyDocument → ℕ → DefaultCurrencySnapshot
  snapshot_at policy sequence =
      let payload = obj (
        field (codes "kind") (str (codes "vorcaro-default-currency-snapshot")) (
          field (codes "policy_id") (str policy.id) (
            field (codes "policy_hash") (str policy.document_hash) (
              field (codes "default_currency") (str policy.default_currency)
                (field (codes "effective_sequence") (str (decimal sequence)) end))))) in
      let hash = sha256_digest host (canonical_bytes host payload) in
      record {
        id = codes "ccysnap_" ++ take 26 (host.sha256_hex (host.utf8 hash));
        hash = hash;
        default_currency = policy.default_currency;
        policy_id = policy.id;
        policy_hash = policy.document_hash;
        effective_sequence = sequence;
      }

  abbrev snapshot_of : PolicyDocument → Option ℕ → Result DefaultCurrencySnapshot
  snapshot_of policy none = err (coded ErrorCode.policy_version_mismatch)
  snapshot_of policy (some sequence) = ok (snapshot_at policy sequence)

  unfoldable pub default_currency_snapshot : PolicyDocument → Result DefaultCurrencySnapshot
  default_currency_snapshot policy = snapshot_of policy policy.activated_at_sequence

  unfoldable pub check_snapshot_id : PolicyDocument → Option Text → Option ℕ → Result (Unit {0})
  check_snapshot_id policy none sequence = ok tt
  check_snapshot_id policy (some id) none = ok tt
  check_snapshot_id policy (some id) (some _) = do
    snapshot ← default_currency_snapshot policy
    guard (text_eq id snapshot.id) (coded ErrorCode.policy_version_mismatch)

  unfoldable pub assert_default_currency_snapshot :
      PolicyDocument → ClientEventEnvelope → Result (Unit {0})
  assert_default_currency_snapshot policy event =
      check_snapshot_id policy event.policy_metadata.default_currency_snapshot_id
        policy.activated_at_sequence
