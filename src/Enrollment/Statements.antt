-- ===== src/Enrollment/Statements.antt =====
-- The SQL statements of server/src/pki/enrollment.ts, with the constraints of the schema.
use vorcaro_ledger.Prelude.{
  ℕ, max, ◌==◌, Bool, true, false, not, ◌||◌, Option, some, List, [], ◌∷◌, map, Text, text_eq, any,
  find, filter_by, update_where, if◌then◌else◌,
}
use vorcaro_ledger.Prelude.Sort.{sort}
use vorcaro_ledger.Protocol.Result.{Result, ok, err, sql_error}
use vorcaro_ledger.Protocol.Crypto.{Host}
use vorcaro_ledger.Database.Tables.{
  Db, DeviceRow, DeviceStatus, EnrollmentTokenRow, EnrollmentChallengeRow, RevocationListRow,
}
use vorcaro_ledger.Recovery.Ceremony.{bytes_le}

abbrev is_executive : Text → Db → Bool
is_executive executive_id db = any (λ e. text_eq e.id executive_id) db.executives

-- PRIMARY KEY (token_hash); executive_id is a foreign key.
unfoldable pub insert_token : EnrollmentTokenRow → Db → Result Db
insert_token new db =
    if any (λ t. text_eq t.token_hash new.token_hash) db.enrollment_tokens
      || not (is_executive new.executive_id db)
    then err sql_error
    else ok (record db { enrollment_tokens = new ∷ db.enrollment_tokens })

-- PRIMARY KEY (id); token_hash and executive_id are foreign keys.
unfoldable pub insert_challenge : EnrollmentChallengeRow → Db → Result Db
insert_challenge new db =
    if any (λ c. text_eq c.id new.id) db.enrollment_challenges
      || not (any (λ t. text_eq t.token_hash new.token_hash) db.enrollment_tokens)
      || not (is_executive new.executive_id db)
    then err sql_error
    else ok (record db { enrollment_challenges = new ∷ db.enrollment_challenges })

-- PRIMARY KEY (id) and UNIQUE (certificate_fingerprint); executive_id is a foreign key.
unfoldable pub insert_device : DeviceRow → Db → Result Db
insert_device new db =
    if any
        (λ d. text_eq d.id new.id || text_eq d.certificate_fingerprint new.certificate_fingerprint)
        db.devices
      || not (is_executive new.executive_id db)
    then err sql_error
    else ok (record db { devices = new ∷ db.devices })

-- PRIMARY KEY (version)
unfoldable pub insert_revocation_list : RevocationListRow → Db → Result Db
insert_revocation_list new db =
    if any (λ r. r.version == new.version) db.revocation_list_versions
    then err sql_error
    else ok (record db { revocation_list_versions = new ∷ db.revocation_list_versions })

unfoldable pub find_token : Text → Db → Option EnrollmentTokenRow
find_token token_hash db = find (λ t. text_eq t.token_hash token_hash) db.enrollment_tokens

unfoldable pub find_challenge : Text → Db → Option EnrollmentChallengeRow
find_challenge challenge_id db = find (λ c. text_eq c.id challenge_id) db.enrollment_challenges

unfoldable pub consume_token : Text → Text → Db → Db
consume_token token_hash now db = record db {
  enrollment_tokens =
      update_where (λ t. text_eq t.token_hash token_hash) (λ t. record t { consumed_at = some now })
        db.enrollment_tokens;
}

unfoldable pub consume_challenge : Text → Text → Db → Db
consume_challenge challenge_id now db = record db {
  enrollment_challenges =
      update_where (λ c. text_eq c.id challenge_id) (λ c. record c { consumed_at = some now })
        db.enrollment_challenges;
}

unfoldable pub revoke_device_row : Text → Text → Db → Db
revoke_device_row device_id now db = record db {
  devices =
      update_where (λ d. text_eq d.id device_id)
        (λ d. record d { status = DeviceStatus.revoked; revoked_at = some now }) db.devices;
}

abbrev pub is_revoked : DeviceStatus → Bool
is_revoked DeviceStatus.revoked = true
is_revoked _ = false

-- `SELECT id FROM devices WHERE status = 'revoked' ORDER BY id ASC`
unfoldable pub revoked_device_ids_of : Host → Db → List Text
revoked_device_ids_of host db =
    sort (λ a b. bytes_le (host.utf8 a) (host.utf8 b))
      (map (λ d. d.id) (filter_by (λ d. is_revoked d.status) db.devices))

-- `MAX(version)`, 0 where there is none
unfoldable pub max_version : List RevocationListRow → ℕ
max_version [] = 0
max_version (r ∷ rs) = max r.version (max_version rs)
