-- ===== src/Protocol/Revocation.antt =====
-- `revocationListSchema` of packages/protocol/src/schemas.ts. zod's own test of a timestamp is the
-- argument `is_datetime`.
use vorcaro_ledger.Prelude.{ℕ, Bool, not, ◌&&◌, List, Text, any, ltb, if◌then◌else◌}
use vorcaro_ledger.Protocol.Result.{Result, ok, err, zod_error}
use vorcaro_ledger.Protocol.Pattern.{is_nonempty, is_base64}

pub record RevokedKeyVersion : Type 0 where
  pub executive_id : Text
  pub key_version : ℕ

pub record WipeDirective : Type 0 where
  pub device_id : Text
  pub signature : Text

pub record RevocationList : Type 0 where
  pub version : ℕ
  pub revoked_device_ids : List Text
  pub revoked_key_versions : List RevokedKeyVersion
  pub wipe_directives : List WipeDirective
  pub issued_at : Text
  pub signature : Text

abbrev pub all_pass {ℓ} : {A : Type ℓ} → (A → Bool) → List A → Bool
all_pass p xs = not (any (λ x. not (p x)) xs)

unfoldable pub revocation_list_valid : (Text → Bool) → RevocationList → Bool
revocation_list_valid is_datetime l =
    all_pass is_nonempty l.revoked_device_ids
    && all_pass (λ k. is_nonempty k.executive_id && ltb 0 k.key_version) l.revoked_key_versions
    && all_pass (λ w. is_nonempty w.device_id && is_base64 w.signature) l.wipe_directives
    && is_datetime l.issued_at
    && is_base64 l.signature

-- `revocationListSchema.parse`
unfoldable pub parse_revocation_list : (Text → Bool) → RevocationList → Result RevocationList
parse_revocation_list is_datetime l =
    if revocation_list_valid is_datetime l then ok l else err zod_error
