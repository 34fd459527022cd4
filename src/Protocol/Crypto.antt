-- ===== src/Protocol/Crypto.antt =====
-- packages/protocol/src/crypto.ts. `Host` stands for what it calls outside the repository: node's
-- `Buffer` and `createHash`, libsodium, and the collation and date parsing of the runtime.
use vorcaro_ledger.Prelude.{
  ℕ, Bool, false, ◌&&◌, not, Option, none, some, ◌++◌, Text, Bytes, codes, length, ◌==◌, text_eq,
  if◌then◌else◌, ◌≡◌, text_eq_iff, true, arith, [], ◌∷◌, ltb,
}
use mathlib.Core.Option
use vorcaro_ledger.Prelude.Int.{pos}
use vorcaro_ledger.Protocol.Result.{Result, ok, type_error, guard, ◌>>=◌, ◌>>◌}
use vorcaro_ledger.Protocol.Spelling.{
  event_status_text, event_type_text, object_type_text, error_code_text,
}
use vorcaro_ledger.Protocol.Decimal.{decimal}
use vorcaro_ledger.Protocol.Canonical.{
  CanonicalJson, Fields, null, bigint, str, obj, end, field, optional_field, canonicalize,
}
use vorcaro_ledger.Protocol.Envelope.{
  PolicyMetadata, ClientEventEnvelope, UnsignedServerAck, ServerAck,
}
use vorcaro_ledger.Protocol.Schema.{parse_unsigned_ack, parse_server_ack}

pub record Host : Type 0 where
  -- `Buffer.from(text, "utf8")`
  pub utf8 : Text → Bytes
  -- `Buffer.from(text, "base64")` and `.toString("base64")`
  pub base64_decode : Text → Bytes
  pub base64_encode : Bytes → Text
  -- `createHash("sha256").update(bytes).digest("hex")`
  pub sha256_hex : Bytes → Text
  -- `crypto_sign_detached(message, secret_key)`
  pub sign_detached : Bytes → Bytes → Bytes
  -- `crypto_sign_verify_detached(signature, message, public_key)`
  pub verify_detached : Bytes → Bytes → Bytes → Bool
  -- `left.localeCompare(right) <= 0`
  pub locale_le : Text → Text → Bool
  -- `z.string().datetime({ offset: true })`
  pub is_datetime : Text → Bool

-- `unsignedClientEvent`, as the object that is encoded
abbrev text_field : Text → Option Text → Fields → Fields
text_field key value fields = optional_field key (Option.map str value) fields

unfoldable pub metadata_json : PolicyMetadata → CanonicalJson
metadata_json m = obj (
    text_field (codes "account_id") m.account_id (
      text_field (codes "counterparty_account_id") m.counterparty_account_id (
        text_field (codes "entity_id") m.entity_id (
          optional_field (codes "amount_minor_units") (Option.map bigint m.amount_minor_units) (
            text_field (codes "currency") m.currency (
              text_field (codes "transaction_currency") m.transaction_currency (
                text_field (codes "exchange_rate") m.exchange_rate (
                  text_field (codes "default_currency_snapshot_id") m.default_currency_snapshot_id (
                    optional_field (codes "local_rate")
                      (Option.map (λ n. bigint (pos n)) m.local_rate) end)))))))))

unfoldable pub unsigned_client_event : ClientEventEnvelope → CanonicalJson
unsigned_client_event e = obj (
    field (codes "event_id") (str e.event_id) (
      field (codes "event_type") (str (event_type_text e.event_type)) (
        field (codes "actor_id") (str e.actor_id) (
          field (codes "device_id") (str e.device_id) (
            field (codes "client_timestamp") (str e.client_timestamp) (
              field (codes "base_server_sequence") (bigint (pos e.base_server_sequence)) (
                field (codes "device_event_counter") (bigint (pos e.device_event_counter)) (
                  field (codes "object_type") (str (object_type_text e.object_type)) (
                    field (codes "object_id") (str e.object_id) (
                      field (codes "policy_metadata") (metadata_json e.policy_metadata) (
                        field (codes "payload_hash") (str e.payload_hash) (
                          field (codes "encrypted_payload") (str e.encrypted_payload)
                            end))))))))))))

abbrev or_null {ℓ} : {A : Type ℓ} → (A → CanonicalJson) → Option A → CanonicalJson
or_null f none = null
or_null f (some a) = f a

unfoldable pub unsigned_ack_json : UnsignedServerAck → CanonicalJson
unsigned_ack_json a = obj (
    field (codes "event_id") (str a.event_id) (
      field (codes "status") (str (event_status_text a.status)) (
        field (codes "server_sequence") (or_null (λ n. bigint (pos n)) a.server_sequence) (
          field (codes "resulting_ledger_hash") (or_null str a.resulting_ledger_hash) (
            field (codes "server_timestamp") (str a.server_timestamp) (
              field (codes "error_code") (or_null (λ c. str (error_code_text c)) a.error_code)
                end))))))

module _ (host : Host) where
  -- `canonicalBytes`
  unfoldable pub canonical_bytes : CanonicalJson → Bytes
  canonical_bytes value = host.utf8 (canonicalize host.locale_le value)

  unfoldable pub sign_bytes : Bytes → Text → Result Text
  sign_bytes bytes secret_key = do
    guard (length (host.base64_decode secret_key) == 64) type_error
    ok (host.base64_encode (host.sign_detached bytes (host.base64_decode secret_key)))

  unfoldable pub verify_bytes : Bytes → Text → Text → Bool
  verify_bytes bytes signature public_key =
      if not (
        length (host.base64_decode signature) == 64 && length (host.base64_decode public_key) == 32)
      then false
      else host.verify_detached (host.base64_decode signature) bytes (host.base64_decode public_key)

  unfoldable pub sha256_digest : Bytes → Text
  sha256_digest bytes = codes "sha256:" ++ host.sha256_hex bytes

  unfoldable pub payload_hash : Text → Text
  payload_hash encrypted_payload = sha256_digest (host.base64_decode encrypted_payload)

  -- `constantTimeEqual`, on the bytes of the two texts
  unfoldable pub constant_time_equal : Text → Text → Bool
  constant_time_equal left right =
      length (host.utf8 left) == length (host.utf8 right)
      && text_eq (host.utf8 left) (host.utf8 right)

  unfoldable pub canonical_event_bytes : ClientEventEnvelope → Bytes
  canonical_event_bytes event = canonical_bytes (unsigned_client_event event)

  unfoldable pub verify_client_event_signature : ClientEventEnvelope → Text → Bool
  verify_client_event_signature event public_key =
      verify_bytes (canonical_event_bytes event) event.client_signature public_key

  unfoldable pub compute_ledger_hash : Text → ℕ → ClientEventEnvelope → Text
  compute_ledger_hash previous_ledger_hash server_sequence event = sha256_digest (
      host.utf8 previous_ledger_hash
      ++ host.utf8 (decimal server_sequence)
      ++ canonical_event_bytes event)

  unfoldable pub sign_server_ack : UnsignedServerAck → Text → Result ServerAck
  sign_server_ack ack secret_key = do
    unsigned ← parse_unsigned_ack host.is_datetime ack
    signature ← sign_bytes (canonical_bytes (unsigned_ack_json unsigned)) secret_key
    parse_server_ack host.is_datetime (record { unsigned = unsigned; server_signature = signature })

unfoldable pub is_ascii : Text → Bool
is_ascii [] = true
is_ascii (c ∷ s) = ltb c 128 && is_ascii s

-- What is documented of `Buffer.from(text, "utf8")` and of `digest("hex")`: no other text, also none
-- with lone surrogates, which become U+FFFD, is encoded as an ASCII text is; and a digest is written
-- in ASCII.
pub record EncodesAscii (host : Host) : Type 0 where
  pub exact : (s t : Text) → is_ascii t ≡ true → host.utf8 s ≡ host.utf8 t → s ≡ t
  pub hex : (bytes : Bytes) → is_ascii (host.sha256_hex bytes) ≡ true

-- A text that compares equal to a digest is the digest.
pub constant_time_equal-sha256_digest :
    (host : Host)
    → EncodesAscii host
    → (s : Text) (bytes : Bytes) → constant_time_equal host s (sha256_digest host bytes) ≡ true
    → s ≡ sha256_digest host bytes
unfolding constant_time_equal sha256_digest is_ascii
constant_time_equal-sha256_digest host encodes s bytes h =
    encodes.exact s (codes "sha256:" ++ host.sha256_hex bytes) (encodes.hex bytes) (
      (text_eq_iff (host.utf8 s) (host.utf8 (codes "sha256:" ++ host.sha256_hex bytes))).0
        (ground arith))
