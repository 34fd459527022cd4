-- ===== src/Enrollment/Service.antt =====
-- `PkiService` of server/src/pki/enrollment.ts: its options, its inputs and results, and its dates.
use vorcaro_ledger.Prelude.{ℕ, ◌*◌, Bool, false, Option, none, some, Text}
use vorcaro_ledger.Prelude.Int.{ℤ, leb_ℤ, add_ℕ}
use vorcaro_ledger.Protocol.Result.{Result, err, range_error}
use vorcaro_ledger.Protocol.Envelope.{ClientEventEnvelope, ServerAck}
use vorcaro_ledger.Protocol.Crypto.{Host}

pub record IssueDeviceCertificateInput : Type 0 where
  pub executive_id : Text
  pub device_id : Text
  pub public_key : Text
  pub challenge_id : Text
  pub issued_at : Text
  pub expires_at : Text

pub record IssuedDeviceCertificate : Type 0 where
  pub certificate_pem : Text
  pub certificate_fingerprint : Text
  pub expires_at : Text

pub record RevokeDeviceCertificateInput : Type 0 where
  pub device_id : Text
  pub certificate_fingerprint : Text
  pub revoked_at : Text
  pub reason : Text

-- The interface that the service is given; what it keeps outside the database is not rolled back.
pub record CertificateAuthority : Type 0 where
  pub issue_device_certificate : IssueDeviceCertificateInput → Result IssuedDeviceCertificate
  pub revoke_device_certificate : RevokeDeviceCertificateInput → Result (Unit {0})

-- `Date.parse`, with none for NaN, and `toISOString` of a time in milliseconds, which throws a
-- RangeError out of range.
pub record Dates : Type 0 where
  pub parse : Text → Option ℤ
  pub to_iso_string : ℤ → Result Text

-- The service's options, and what `now()`, `randomUUID()` and `randomBytes(32).toString("base64url")`
-- return during the call.
pub record PkiService : Type 0 where
  pub host : Host
  pub certificate_authority : CertificateAuthority
  pub dates : Dates
  pub server_signing_secret_key : Text
  pub now : Text
  pub random_uuid : Text
  pub random_text : Text
  pub device_certificate_lifetime_days : ℕ
  pub enrollment_challenge_lifetime_minutes : ℕ

pub record IssueEnrollmentTokenInput : Type 0 where
  pub executive_id : Text
  pub issued_by : Text
  pub expires_at : Text
  pub token : Option Text

pub record IssuedEnrollmentToken : Type 0 where
  pub token : Text
  pub token_hash : Text
  pub expires_at : Text

pub record BeginEnrollmentInput : Type 0 where
  pub token : Text
  pub device_id : Text
  pub public_key : Text

pub record EnrollmentChallenge : Type 0 where
  pub challenge_id : Text
  pub challenge : Text
  pub expires_at : Text

pub record CompleteEnrollmentInput : Type 0 where
  pub token : Text
  pub challenge_id : Text
  pub proof_signature : Text
  pub hardware_backed : Bool
  pub enrollment_event : ClientEventEnvelope

pub record CompleteEnrollmentResult : Type 0 where
  pub certificate : IssuedDeviceCertificate
  pub acknowledgement : ServerAck

pub record RevokeDeviceInput : Type 0 where
  pub device_id : Text
  pub revoked_by : Text
  pub reason : Text

abbrev shifted : Dates → ℕ → Option ℤ → Result Text
shifted dates milliseconds none = err range_error
shifted dates milliseconds (some time) = dates.to_iso_string (add_ℕ time milliseconds)

unfoldable pub add_minutes : Dates → Text → ℕ → Result Text
add_minutes dates iso_timestamp minutes =
    shifted dates (minutes * 60000) (dates.parse iso_timestamp)

unfoldable pub add_days : Dates → Text → ℕ → Result Text
add_days dates iso_timestamp days = shifted dates (days * 86400000) (dates.parse iso_timestamp)

-- A comparison with NaN fails.
abbrev pub not_after : Option ℤ → Option ℤ → Bool
not_after (some a) (some b) = leb_ℤ a b
not_after _ _ = false

unfoldable pub is_expired : Dates → Text → Text → Bool
is_expired dates expires_at now = not_after (dates.parse expires_at) (dates.parse now)
