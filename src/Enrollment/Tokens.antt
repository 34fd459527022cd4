-- ===== src/Enrollment/Tokens.antt =====
-- `issueEnrollmentToken`, `beginEnrollment` and `getUsableToken` of server/src/pki/enrollment.ts.
use mathlib.Core.Option
use vorcaro_ledger.Prelude.{
  not, ◌||◌, Option, none, some, ◌++◌, Text, codes, is_defined, if◌then◌else◌,
}
use vorcaro_ledger.Protocol.Types.{ErrorCode, AuditCategory}
use vorcaro_ledger.Protocol.Result.{Result, ok, err, coded}
use vorcaro_ledger.Protocol.Canonical.{Fields, str, obj, end, field}
use vorcaro_ledger.Protocol.Crypto.{sha256_digest, constant_time_equal}
use vorcaro_ledger.Database.Tables.{Db, EnrollmentTokenRow}
use vorcaro_ledger.Database.Action.{Action, pure, lift, modify, attempt, ◌>>=◌, ◌>>◌}
use vorcaro_ledger.Audit.{write_audit_log}
use vorcaro_ledger.Enrollment.Service.{
  PkiService, IssueEnrollmentTokenInput, IssuedEnrollmentToken, BeginEnrollmentInput,
  EnrollmentChallenge, add_minutes, is_expired,
}
use vorcaro_ledger.Enrollment.Statements.{insert_token, insert_challenge, find_token}

module _ (s : PkiService) where
  -- `sha256Digest` of a text, which is hashed as its bytes
  unfoldable pub hash_enrollment_token : Text → Text
  hash_enrollment_token token = sha256_digest s.host (s.host.utf8 token)

  unfoldable pub audit_as : AuditCategory → Text → Fields → Db → Db
  audit_as category actor detail =
      write_audit_log s.host
        (record { category = category; actor = actor; detail = obj detail; created_at = s.now })

  abbrev pub token_of : IssueEnrollmentTokenInput → Text
  token_of input = Option.get_or input.token s.random_text

  unfoldable pub issue_enrollment_token : IssueEnrollmentTokenInput → Action IssuedEnrollmentToken
  issue_enrollment_token input = do
    attempt (
        insert_token (record {
          token_hash = hash_enrollment_token (token_of input);
          executive_id = input.executive_id;
          issued_by = input.issued_by;
          expires_at = input.expires_at;
          consumed_at = none;
        }))
    modify (
        audit_as AuditCategory.admin input.issued_by (
          field (codes "event") (str (codes "enrollment_token_issued")) (
            field (codes "executive_id") (str input.executive_id)
              (field (codes "token_hash") (str (hash_enrollment_token (token_of input))) end))))
    pure (record {
      token = token_of input;
      token_hash = hash_enrollment_token (token_of input);
      expires_at = input.expires_at;
    })

  unfoldable pub check_token : Text → Option EnrollmentTokenRow → Result EnrollmentTokenRow
  check_token token_hash none = err (coded ErrorCode.cert_unknown)
  check_token token_hash (some token) =
      if not (constant_time_equal s.host token.token_hash token_hash)
      then err (coded ErrorCode.cert_unknown)
      else if is_defined token.consumed_at || is_expired s.dates token.expires_at s.now
      then err (coded ErrorCode.policy_denied)
      else ok token

  unfoldable pub get_usable_token : Text → Db → Result EnrollmentTokenRow
  get_usable_token token_hash db = check_token token_hash (find_token token_hash db)

  abbrev pub new_challenge_id : Text
  new_challenge_id = codes "enr_" ++ s.random_uuid

  unfoldable pub begin_enrollment : BeginEnrollmentInput → Action EnrollmentChallenge
  begin_enrollment input = do
    token ← λ db. (get_usable_token (hash_enrollment_token input.token) db, db)
    expires_at ← lift (add_minutes s.dates s.now s.enrollment_challenge_lifetime_minutes)
    attempt (
        insert_challenge (record {
          id = new_challenge_id;
          token_hash = token.token_hash;
          executive_id = token.executive_id;
          device_id = input.device_id;
          public_key = input.public_key;
          challenge = s.random_text;
          expires_at = expires_at;
          consumed_at = none;
          created_at = s.now;
        }))
    modify (
        audit_as AuditCategory.auth token.executive_id (
          field (codes "event") (str (codes "enrollment_challenge_issued")) (
            field (codes "challenge_id") (str new_challenge_id)
              (field (codes "device_id") (str input.device_id) end))))
    pure (record {
      challenge_id = new_challenge_id;
      challenge = s.random_text;
      expires_at = expires_at;
    })
