-- ===== src/Policy/Grounds.antt =====
-- What the checks of `activatePolicy` in server/src/policy/service.ts have shown.
use vorcaro_ledger.Prelude.{
  true, ◌⊎◌, ◌↔◌, inl, inr, Bool-cases, text_eq_iff, is_yes_iff, false, Option, none, some, text_eq,
  ◌≡◌, refl, arith,
}
use vorcaro_ledger.Protocol.Types.{EventType, ObjectType, EventType-discrete, ObjectType-discrete}
use vorcaro_ledger.Protocol.Result.{ok}
use vorcaro_ledger.Protocol.Envelope.{PolicyMetadata, ClientEventEnvelope}
use vorcaro_ledger.Protocol.Schema.{is_present}
use vorcaro_ledger.Database.Tables.{PolicyRow}
use vorcaro_ledger.Policy.Document.{PolicyDocument}
use vorcaro_ledger.Policy.Snapshot.{document_hash, assert_document_hash}
use vorcaro_ledger.Protocol.Crypto.{Host}
use vorcaro_ledger.Policy.Activation.{has_no_keys, assert_activation_event}
use vorcaro_ledger.Policy.Storing.{taken_by}

-- Metadata without a key.
pub record IsEmpty (m : PolicyMetadata) : Type 0 where
  pub account_id : m.account_id ≡ none
  pub counterparty_account_id : m.counterparty_account_id ≡ none
  pub entity_id : m.entity_id ≡ none
  pub amount_minor_units : m.amount_minor_units ≡ none
  pub currency : m.currency ≡ none
  pub transaction_currency : m.transaction_currency ≡ none
  pub exchange_rate : m.exchange_rate ≡ none
  pub default_currency_snapshot_id : m.default_currency_snapshot_id ≡ none
  pub local_rate : m.local_rate ≡ none

-- The event of an activation.
pub record IsActivation (policy : PolicyDocument) (event : ClientEventEnvelope) : Type 0 where
  pub kind : event.event_type ≡ EventType.policy_changed
  pub object : event.object_type ≡ ObjectType.policy
  pub named : event.object_id ≡ policy.id
  pub bare : IsEmpty event.policy_metadata

absent {ℓ} : {A : Type ℓ} (o : Option A) → is_present o ≡ false → o ≡ none
absent none h = refl
absent (some a) h = absurd (cc)

has_no_keys-IsEmpty : (m : PolicyMetadata) → has_no_keys m ≡ true → IsEmpty m
unfolding has_no_keys
has_no_keys-IsEmpty m h = record {
  account_id = absent m.account_id (ground (arith, h));
  counterparty_account_id = absent m.counterparty_account_id (ground (arith, h));
  entity_id = absent m.entity_id (ground (arith, h));
  amount_minor_units = absent m.amount_minor_units (ground (arith, h));
  currency = absent m.currency (ground (arith, h));
  transaction_currency = absent m.transaction_currency (ground (arith, h));
  exchange_rate = absent m.exchange_rate (ground (arith, h));
  default_currency_snapshot_id = absent m.default_currency_snapshot_id (ground (arith, h));
  local_rate = absent m.local_rate (ground (arith, h));
}

pub assert_activation_event-IsActivation :
    (policy : PolicyDocument) (event : ClientEventEnvelope)
    → assert_activation_event policy event ≡ ok tt
    → IsActivation policy event
unfolding assert_activation_event
assert_activation_event-IsActivation policy event h = record {
  kind =
      (is_yes_iff (EventType-discrete event.event_type EventType.policy_changed)).0 (ground arith);
  object = (is_yes_iff (ObjectType-discrete event.object_type ObjectType.policy)).0 (ground arith);
  named = (text_eq_iff event.object_id policy.id).0 (ground arith);
  bare = has_no_keys-IsEmpty event.policy_metadata (ground arith);
}

pub own_hash :
    (host : Host) (policy : PolicyDocument)
    → assert_document_hash host policy ≡ ok tt
    → document_hash host policy ≡ policy.document_hash
unfolding assert_document_hash
own_hash host policy h =
    (text_eq_iff (document_hash host policy) policy.document_hash).0 (ground arith)

pub taken_iff :
    (policy : PolicyDocument) (r : PolicyRow)
    → (taken_by policy r ≡ true) ↔ ((r.id ≡ policy.id) ⊎ (r.version ≡ policy.version))
taken_iff policy r = (
  λ h. elim (Bool-cases (text_eq r.id policy.id)) [
    | inl same ↦ inl ((text_eq_iff r.id policy.id).0 same)
    | inr other ↦ inr (ground (arith, h, other))
  ],
  λ h. elim h [
    | inl same ↦ ground (arith, (text_eq_iff r.id policy.id).1 same)
    | inr same ↦ ground (arith, same)
  ],
)
