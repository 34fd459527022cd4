-- ===== src/Database/Select.antt =====
-- The SELECT statements that server/src/ledger/appender.ts shares with the other services.
use mathlib.Core.Option
use vorcaro_ledger.Prelude.{
  ℕ, ◌+◌, max, Bool, true, false, ◌&&◌, Option, none, some, List, [], ◌∷◌, Text, codes, text_eq,
  leb, ltb, ◌==◌, find, filter_by, if◌then◌else◌,
}
use vorcaro_ledger.Protocol.Types.{ObjectType, object_type_eq}
use vorcaro_ledger.Protocol.Result.{Result, ok, err, range_error, ◌>>=◌}
use vorcaro_ledger.Database.Tables.{
  Db, ExecutiveRow, ExecutiveKeyRow, DeviceRow, LedgerEventRow, ObjectHeadRow, ConflictRow, is_open,
}

abbrev pub genesis_ledger_hash : Text
genesis_ledger_hash =
    codes "sha256:0000000000000000000000000000000000000000000000000000000000000000"

-- `toSqlInteger`
abbrev pub max_safe_integer : ℕ
max_safe_integer = 9007199254740991

unfoldable pub to_sql_integer : ℕ → Result ℕ
to_sql_integer value = if leb value max_safe_integer then ok value else err range_error

module _ {A : Type 0} (key : A → ℕ) where
  unfoldable pub later : A → Option A → A
  later x none = x
  later x (some y) = if ltb (key x) (key y) then y else x

  -- `ORDER BY key DESC LIMIT 1`
  unfoldable pub max_by : List A → Option A
  max_by [] = none
  max_by (x ∷ xs) = some (later x (max_by xs))

unfoldable pub find_existing_event : Text → Db → Option LedgerEventRow
find_existing_event event_id db = find (λ r. text_eq r.id event_id) db.ledger_events

unfoldable pub find_device : Text → Db → Option DeviceRow
find_device device_id db = find (λ r. text_eq r.id device_id) db.devices

unfoldable pub find_executive : Text → Db → Option ExecutiveRow
find_executive executive_id db = find (λ r. text_eq r.id executive_id) db.executives

abbrev pub holds_until : Option ℕ → ℕ → Bool
holds_until none sequence = true
holds_until (some last) sequence = leb sequence last

-- The WHERE of `findExecutiveKey`.
unfoldable pub key_covers : Text → ℕ → ExecutiveKeyRow → Bool
key_covers executive_id sequence k =
    text_eq k.executive_id executive_id
    && leb k.valid_from_sequence sequence
    && holds_until k.valid_until_sequence sequence

unfoldable pub find_executive_key : Text → ℕ → Db → Result (Option ExecutiveKeyRow)
find_executive_key executive_id base_server_sequence db = do
  sequence ← to_sql_integer base_server_sequence
  ok (max_by (λ k. k.key_version) (filter_by (key_covers executive_id sequence) db.executive_keys))

abbrev pub at_object : ObjectType → Text → ObjectHeadRow → Bool
at_object object_type object_id h =
    object_type_eq h.object_type object_type && text_eq h.object_id object_id

unfoldable pub find_object_head : ObjectType → Text → Db → Option ObjectHeadRow
find_object_head object_type object_id db = find (at_object object_type object_id) db.object_heads

abbrev pub open_at : ObjectType → Text → ConflictRow → Bool
open_at object_type object_id c =
    object_type_eq c.object_type object_type && text_eq c.object_id object_id && is_open c.status

unfoldable pub find_open_conflict : ObjectType → Text → Db → Option ConflictRow
find_open_conflict object_type object_id db = find (open_at object_type object_id) db.conflicts

abbrev pub sequence_or_zero : LedgerEventRow → ℕ
sequence_or_zero r = Option.get_or r.server_sequence 0

abbrev pub has_sequence : LedgerEventRow → Bool
has_sequence r = elim r.server_sequence [ none ↦ false | some _ ↦ true ]

abbrev is_at_sequence : ℕ → LedgerEventRow → Bool
is_at_sequence n r = elim r.server_sequence [ none ↦ false | some m ↦ m == n ]

unfoldable pub find_head_event_id : ℕ → Db → Option Text
find_head_event_id server_sequence db =
    Option.map (λ r. r.id) (find (is_at_sequence server_sequence) db.ledger_events)

-- `COALESCE(MAX(server_sequence), 0)`
unfoldable pub max_sequence : List LedgerEventRow → ℕ
max_sequence [] = 0
max_sequence (r ∷ rs) = max (sequence_or_zero r) (max_sequence rs)

unfoldable pub next_server_sequence : Db → ℕ
next_server_sequence db = max_sequence db.ledger_events + 1

abbrev pub hash_or_genesis : Option LedgerEventRow → Text
hash_or_genesis none = genesis_ledger_hash
hash_or_genesis (some r) = Option.get_or r.resulting_ledger_hash genesis_ledger_hash

unfoldable pub latest_event : List LedgerEventRow → Option LedgerEventRow
latest_event rows = max_by sequence_or_zero (filter_by has_sequence rows)

unfoldable pub previous_ledger_hash : Db → Text
previous_ledger_hash db = hash_or_genesis (latest_event db.ledger_events)
