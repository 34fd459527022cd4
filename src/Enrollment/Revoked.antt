-- ===== src/Enrollment/Revoked.antt =====
-- The list that `revokeDevice` of server/src/pki/enrollment.ts returns.
use vorcaro_ledger.Prelude.{
  ℕ, ◌+◌, Bool, true, ◌||◌, ◌&&◌, ◌↔◌, Has, any-Has, Has-any, Option, none, some, List, [], ◌∷◌,
  map, Text, text_eq, text_eq_iff, find, any, filter_by, update_where, ◌≡◌, refl, sym, ap, ◌∙◌,
  arith, inl, inr, Bool-cases,
}
use vorcaro_ledger.Prelude.Sort.{insert, sort}
use vorcaro_ledger.Protocol.Result.{ok}
use vorcaro_ledger.Protocol.Revocation.{RevocationList, parse_revocation_list}
use vorcaro_ledger.Protocol.Crypto.{canonical_bytes, sign_bytes}
use vorcaro_ledger.Database.Tables.{Db, DeviceRow, DeviceStatus, RevocationListRow}
use vorcaro_ledger.Database.Select.{find_device}
use vorcaro_ledger.Database.Returns.{
  Returns, bind-Returns, read-Returns, gets-Returns, modify-Returns, attempt-Returns, pure-Returns,
  transaction-Returns,
}
use vorcaro_ledger.Audit.{write_audit_log}
use vorcaro_ledger.Recovery.Ceremony.{bytes_le}
use vorcaro_ledger.Enrollment.Service.{PkiService, RevokeDeviceInput}
use vorcaro_ledger.Enrollment.Statements.{
  revoke_device_row, revoked_device_ids_of, is_revoked, max_version, insert_revocation_list,
}
use vorcaro_ledger.Enrollment.Tokens.{audit_as}
use vorcaro_ledger.Enrollment.Revocation.{
  revocation_json, sign_revocation_list, write_revocation_list, revocation_statements, known_device,
  revoke_device,
}

abbrev row_of_list : RevocationList → RevocationListRow
row_of_list list = record {
  version = list.version;
  document = list;
  signature = list.signature;
  issued_at = list.issued_at;
}

module _ {A : Type 0} (le : A → A → Bool) (p : A → Bool) where
  any-insert : (x : A) (xs : List A) → any p (insert le x xs) ≡ (p x || any p xs)
  unfolding any insert
  any-insert x [] = refl
  any-insert x (y ∷ ys) = ground (arith, any-insert x ys)

  any-sort : (xs : List A) → any p (sort le xs) ≡ any p xs
  unfolding any sort
  any-sort [] = refl
  any-sort (x ∷ xs) = ground (arith, any-insert x (sort le xs), any-sort xs)

-- A device that is found is among the revoked ones, once it is revoked.
revoked_among :
    (id now : Text) (ds : List DeviceRow) (d : DeviceRow)
    → find (λ d. text_eq d.id id) ds ≡ some d
    → any (text_eq id) (
        map
          (λ (d : DeviceRow). d.id)
          (filter_by
            (λ d. is_revoked d.status)
            (update_where
              (λ d. text_eq d.id id)
              (λ d. record d { status = DeviceStatus.revoked; revoked_at = some now })
              ds)))
      ≡ true
unfolding find any filter_by update_where
revoked_among id now [] d h = ground (arith, h)
revoked_among id now (x ∷ xs) d h = elim (Bool-cases (text_eq x.id id)) [
  | inl here ↦ ground (arith, here, text_eq_iff x.id id, text_eq_iff id x.id)
  | inr there ↦ ground (arith, there, h, revoked_among id now xs d)
]

any-map-filter_by :
    (id : Text) (ds : List DeviceRow)
    → any (text_eq id) (map (λ (d : DeviceRow). d.id) (filter_by (λ d. is_revoked d.status) ds))
      ≡ any (λ d. text_eq d.id id && is_revoked d.status) ds
unfolding any filter_by
any-map-filter_by id [] = refl
any-map-filter_by id (d ∷ ds) =
    ground (arith, any-map-filter_by id ds, text_eq_iff d.id id, text_eq_iff id d.id)

named_iff : (id listed : Text) → (text_eq id listed ≡ true) ↔ (listed ≡ id)
named_iff id listed =
    (λ h. sym ((text_eq_iff id listed).0 h), λ h. (text_eq_iff id listed).1 (sym h))

revoked_iff :
    (id : Text) (d : DeviceRow)
    → ((text_eq d.id id && is_revoked d.status) ≡ true)
      ↔ ((d.id ≡ id) × (d.status ≡ DeviceStatus.revoked))
revoked_iff id d = (
  λ h. ((text_eq_iff d.id id).0 (ground arith), ground arith),
  λ h. ground (arith, h.1, (text_eq_iff d.id id).1 h.0),
)

module _ (s : PkiService) where
  -- The ids that the SELECT gives are those of the devices with the status revoked.
  exactly_revoked :
      (id : Text) (ds : List DeviceRow)
      → Has
          (λ listed. listed ≡ id)
          (sort
            (λ a b. bytes_le (s.host.utf8 a) (s.host.utf8 b))
            (map (λ (d : DeviceRow). d.id) (filter_by (λ d. is_revoked d.status) ds)))
        ↔ Has (λ (d : DeviceRow). (d.id ≡ id) × (d.status ≡ DeviceStatus.revoked)) ds
  exactly_revoked id ds =
      let le = λ (a b : Text). bytes_le (s.host.utf8 a) (s.host.utf8 b) in
      let ids = map (λ (d : DeviceRow). d.id) (filter_by (λ d. is_revoked d.status) ds) in
      let same : any (text_eq id) (sort le ids)
          ≡ any (λ (d : DeviceRow). text_eq d.id id && is_revoked d.status) ds =
        any-sort le (text_eq id) ids ∙ any-map-filter_by id ds in
      (
        λ h.
            any-Has (λ d. (d.id ≡ id) × (d.status ≡ DeviceStatus.revoked))
              (λ d. text_eq d.id id && is_revoked d.status) (revoked_iff id) ds
              (sym same
                ∙ Has-any (λ listed. listed ≡ id) (text_eq id) (named_iff id) (sort le ids) h),
        λ h.
            any-Has (λ listed. listed ≡ id) (text_eq id) (named_iff id) (sort le ids)
              (same
                ∙ Has-any (λ d. (d.id ≡ id) × (d.status ≡ DeviceStatus.revoked))
                    (λ d. text_eq d.id id && is_revoked d.status) (revoked_iff id) ds h),
      )

  -- What a revocation that returns has done.
  pub record Revoked (input : RevokeDeviceInput) (db : Db) (list : RevocationList) (db' : Db)
      : Type 0 where
    pub exact :
        (id : Text)
        → Has (λ listed. listed ≡ id) list.revoked_device_ids
          ↔ Has (λ (d : DeviceRow). (d.id ≡ id) × (d.status ≡ DeviceStatus.revoked)) db'.devices
    pub listed : any (text_eq input.device_id) list.revoked_device_ids ≡ true
    pub devices : db'.devices ≡ (revoke_device_row input.device_id s.now db).devices
    pub next_version : list.version ≡ max_version db.revocation_list_versions + 1
    pub stored : db'.revocation_list_versions ≡ row_of_list list ∷ db.revocation_list_versions
    pub signed :
        sign_bytes s.host
          (canonical_bytes s.host (revocation_json list.version list.revoked_device_ids s.now))
          s.server_signing_secret_key
        ≡ ok list.signature

  signed_list :
      (version : ℕ) (ids : List Text) (list : RevocationList)
      → sign_revocation_list s version ids ≡ ok list
      → (list.version ≡ version)
        × (list.revoked_device_ids ≡ ids)
        × (sign_bytes s.host
              (canonical_bytes s.host (revocation_json version ids s.now))
              s.server_signing_secret_key
            ≡ ok list.signature)
  unfolding sign_revocation_list parse_revocation_list
  signed_list version ids list h = ground (arith, h)

  stored_list :
      (new : RevocationListRow) (db db' : Db)
      → insert_revocation_list new db ≡ ok db'
      → (db'.revocation_list_versions ≡ new ∷ db.revocation_list_versions)
        × (db'.devices ≡ db.devices)
  unfolding insert_revocation_list
  stored_list new db db' h = ground (arith, h)

  write_revocation_list-Written :
      (db : Db) (list : RevocationList) (db' : Db)
      → Returns (write_revocation_list s) db list db'
      → (sign_revocation_list s
            (max_version db.revocation_list_versions + 1)
            (revoked_device_ids_of s.host db)
          ≡ ok list)
        × (db'.revocation_list_versions ≡ row_of_list list ∷ db.revocation_list_versions)
        × (db'.devices ≡ db.devices)
  unfolding write_revocation_list
  write_revocation_list-Written db list db' h =
      let h1 = gets-Returns _ _ h in
      let h2 = gets-Returns _ _ h1 in
      let (l, signed, h3) = read-Returns _ _ h2 in
      let (db1, is, h4) = attempt-Returns (insert_revocation_list (row_of_list l)) _ h3 in
      let (same, state) = pure-Returns h4 in
      let (rows, devices) = stored_list (row_of_list l) db db1 is in
      rw (← same, ← state) (signed, rows, devices)

  known_found :
      (o : Option DeviceRow) (device : DeviceRow) → known_device s o ≡ ok device → o ≡ some device
  known_found none device h = absurd (cc)
  known_found (some d) device h = cc

  assemble :
      (input : RevokeDeviceInput) (db db2 : Db) (list : RevocationList) (db' : Db)
      (device : DeviceRow)
      → find_device input.device_id db ≡ some device
      → sign_revocation_list s
          (max_version db.revocation_list_versions + 1)
          (revoked_device_ids_of s.host (revoke_device_row input.device_id s.now db))
        ≡ ok list
      → db2.revocation_list_versions ≡ row_of_list list ∷ db.revocation_list_versions
      → db2.devices ≡ (revoke_device_row input.device_id s.now db).devices
      → db'.devices ≡ db2.devices
      → db'.revocation_list_versions ≡ db2.revocation_list_versions
      → Revoked input db list db'
  unfolding revoked_device_ids_of revoke_device_row find_device
  assemble input db db2 list db' device found signed rows devices devices' rows' =
      let revoked = revoke_device_row input.device_id s.now db in
      let (version, ids, signature) =
        signed_list (max_version db.revocation_list_versions + 1)
          (revoked_device_ids_of s.host revoked) list signed in
      let same = devices' ∙ devices in
      record {
        exact = λ id. rw (ids ∙ ap (λ ds. ids_of ds) (sym same)) (exactly_revoked id db'.devices);
        listed =
            ap (any (text_eq input.device_id)) ids
            ∙ any-sort _ (text_eq input.device_id) (
                map (λ (d : DeviceRow). d.id)
                  (filter_by (λ d. is_revoked d.status) revoked.devices))
            ∙ revoked_among input.device_id s.now db.devices device found;
        devices = same;
        next_version = version;
        stored = rows' ∙ rows;
        signed = rw (version, ids) signature;
      }
    where
      ids_of : List DeviceRow → List Text
      ids_of ds = revoked_device_ids_of s.host (record db { devices = ds })

  -- A revocation that returns has marked the device revoked, and its list has the ids of exactly
  -- the devices that are revoked afterwards, the device among them; the list has the version after
  -- the highest one, carries the server's signature and is stored.
  pub revoke_device-Revoked :
      (input : RevokeDeviceInput) (db : Db) (list : RevocationList) (db' : Db)
      → Returns (revoke_device s input) db list db'
      → Revoked input db list db'
  unfolding revoke_device revocation_statements audit_as write_audit_log revoked_device_ids_of
      revoke_device_row find_device
  revoke_device-Revoked input db list db' h =
      let (device, known, h1) = read-Returns _ _ h in
      let (u, certificate, h2) = read-Returns _ _ (transaction-Returns h1) in
      let h3 = modify-Returns _ _ h2 in
      let db1 = revoke_device_row input.device_id s.now db in
      let (l, wrote, h4) = bind-Returns _ _ db1 db' (write_revocation_list s) h3 in
      let (same, state) = pure-Returns (modify-Returns _ _ h4) in
      let (signed, rows, devices) =
        write_revocation_list-Written db1 list (write_revocation_list s db1).1
          (record { value = wrote ∙ ap ok same; state = refl }) in
      assemble input db (write_revocation_list s db1).1 list db' device
        (known_found (find_device input.device_id db) device known) signed rows devices
        (ap (λ (d : Db). d.devices) (sym state))
        (ap (λ (d : Db). d.revocation_list_versions) (sym state))
