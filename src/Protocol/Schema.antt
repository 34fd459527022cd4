-- ===== src/Protocol/Schema.antt =====
-- `parse` of the zod schemas of packages/protocol/src/schemas.ts, on values that already have the
-- field types. zod's own test of a timestamp is the argument `is_datetime`.
use vorcaro_ledger.Prelude.{
  Bool, true, false, not, ◌&&◌, ◌||◌, Option, none, some, Text, ltb, if◌then◌else◌,
}
use vorcaro_ledger.Protocol.Result.{Result, ok, err, zod_error}
use vorcaro_ledger.Protocol.Pattern.{
  is_currency_code, is_exchange_rate, is_hash, is_base64, is_nonempty,
}
use vorcaro_ledger.Protocol.Envelope.{
  PolicyMetadata, ClientEventEnvelope, UnsignedServerAck, ServerAck,
}

-- `.optional()` and `.nullable()`
unfoldable pub absent_or {ℓ} : {A : Type ℓ} → (A → Bool) → Option A → Bool
absent_or p none = true
absent_or p (some a) = p a

abbrev pub is_present {ℓ} : {A : Type ℓ} → Option A → Bool
is_present none = false
is_present (some _) = true

-- `superRefine` of `policyMetadataSchema`: monetary metadata is complete.
unfoldable pub monetary_fields_complete : PolicyMetadata → Bool
monetary_fields_complete m =
    not (
      is_present m.amount_minor_units
      || is_present m.transaction_currency
      || is_present m.exchange_rate
      || is_present m.default_currency_snapshot_id
      || is_present m.local_rate)
    || is_present m.transaction_currency
      && is_present m.exchange_rate
      && is_present m.default_currency_snapshot_id
      && is_present m.local_rate

unfoldable pub policy_metadata_valid : PolicyMetadata → Bool
policy_metadata_valid m =
    absent_or is_nonempty m.account_id
    && absent_or is_nonempty m.counterparty_account_id
    && absent_or is_nonempty m.entity_id
    && absent_or is_currency_code m.currency
    && absent_or is_currency_code m.transaction_currency
    && absent_or is_exchange_rate m.exchange_rate
    && absent_or is_nonempty m.default_currency_snapshot_id
    && monetary_fields_complete m

module _ (is_datetime : Text → Bool) where
  unfoldable pub envelope_valid : ClientEventEnvelope → Bool
  envelope_valid e =
      is_nonempty e.event_id
      && is_nonempty e.actor_id
      && is_nonempty e.device_id
      && is_datetime e.client_timestamp
      && ltb 0 e.device_event_counter
      && is_nonempty e.object_id
      && policy_metadata_valid e.policy_metadata
      && is_hash e.payload_hash
      && is_base64 e.encrypted_payload
      && is_base64 e.client_signature

  -- `clientEventEnvelopeSchema.parse`
  unfoldable pub parse_envelope : ClientEventEnvelope → Result ClientEventEnvelope
  parse_envelope e = if envelope_valid e then ok e else err zod_error

  unfoldable pub unsigned_ack_valid : UnsignedServerAck → Bool
  unsigned_ack_valid a =
      is_nonempty a.event_id
      && absent_or (ltb 0) a.server_sequence
      && absent_or is_hash a.resulting_ledger_hash
      && is_datetime a.server_timestamp

  -- `unsignedServerAckSchema.parse`
  unfoldable pub parse_unsigned_ack : UnsignedServerAck → Result UnsignedServerAck
  parse_unsigned_ack a = if unsigned_ack_valid a then ok a else err zod_error

  -- `serverAckSchema.parse`
  unfoldable pub parse_server_ack : ServerAck → Result ServerAck
  parse_server_ack a =
      if unsigned_ack_valid a.unsigned && is_base64 a.server_signature then ok a else err zod_error
