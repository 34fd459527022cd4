-- ===== src/Database/Insert.antt =====
-- The INSERT and UPDATE statements on the ledger's tables, with the constraints of the schema: an
-- INSERT that breaks one fails and writes nothing.
use vorcaro_ledger.Prelude.{
  none, leb, ℕ, Bool, true, false, ◌&&◌, ◌||◌, not, Option, some, List, ◌∷◌, Text, text_eq, ◌==◌,
  any, update_where, if◌then◌else◌,
}
use vorcaro_ledger.Protocol.Types.{ObjectType}
use vorcaro_ledger.Protocol.Decimal.{read_decimal}
use vorcaro_ledger.Protocol.Result.{Result, ok, err, sql_error}
use vorcaro_ledger.Database.Tables.{
  Db, LedgerEventRow, ObjectHeadRow, ConflictRow, is_open, resolved,
}
use vorcaro_ledger.Database.Select.{at_object, open_at}

abbrev same_sequence : Option ℕ → Option ℕ → Bool
same_sequence (some m) (some n) = m == n
same_sequence _ _ = false

-- PRIMARY KEY (id), UNIQUE (server_sequence), UNIQUE (device_id, device_event_counter)
abbrev pub clashes : LedgerEventRow → LedgerEventRow → Bool
clashes new r =
    text_eq r.id new.id
    || same_sequence r.server_sequence new.server_sequence
    || text_eq r.device_id new.device_id && r.device_event_counter == new.device_event_counter

-- The generated column local_rate of the STRICT table is an integer of 64 bits.
abbrev pub fits_integer : Option Text → Bool
fits_integer none = true
fits_integer (some digits) = leb (read_decimal digits) 9223372036854775807

-- The foreign keys actor_id and device_id are enforced: `PRAGMA foreign_keys = ON`.
unfoldable pub event_constraints : LedgerEventRow → Db → Bool
event_constraints new db =
    not (any (clashes new) db.ledger_events)
    && any (λ e. text_eq e.id new.actor_id) db.executives
    && any (λ d. text_eq d.id new.device_id) db.devices
    && fits_integer new.policy_metadata.local_rate

unfoldable pub insert_event : LedgerEventRow → Db → Result Db
insert_event new db =
    if event_constraints new db
    then ok (record db { ledger_events = new ∷ db.ledger_events })
    else err sql_error

unfoldable pub set_watermark : Text → ℕ → Text → Db → Db
set_watermark device_id counter seen_at db = record db {
  devices =
      update_where (λ d. text_eq d.id device_id)
        (λ d. record d { max_event_counter = counter; last_seen_at = some seen_at }) db.devices;
}

-- `INSERT … ON CONFLICT(object_type, object_id) DO UPDATE`
unfoldable pub upsert :
    ObjectHeadRow → (ObjectHeadRow → ObjectHeadRow) → List ObjectHeadRow → List ObjectHeadRow
upsert new change heads =
    if any (at_object new.object_type new.object_id) heads
    then update_where (at_object new.object_type new.object_id) change heads
    else new ∷ heads

unfoldable pub accept_head : ObjectType → Text → ℕ → Db → Db
accept_head object_type object_id sequence db = record db {
  object_heads =
      upsert
        (record {
          object_type = object_type;
          object_id = object_id;
          head_sequence = sequence;
          conflicted = false;
        })
        (λ h. record h { head_sequence = sequence; conflicted = false }) db.object_heads;
}

unfoldable pub conflict_head : ObjectType → Text → Db → Db
conflict_head object_type object_id db = record db {
  object_heads =
      upsert
        (record {
          object_type = object_type;
          object_id = object_id;
          head_sequence = 0;
          conflicted = true;
        })
        (λ h. record h { conflicted = true }) db.object_heads;
}

unfoldable pub resolve_head : ObjectType → Text → ℕ → Db → Db
resolve_head object_type object_id sequence db = record db {
  object_heads =
      update_where (at_object object_type object_id)
        (λ h. record h { head_sequence = sequence; conflicted = false }) db.object_heads;
}

unfoldable pub set_conflict_events : Text → List Text → Db → Db
set_conflict_events id event_ids db = record db {
  conflicts =
      update_where (λ c. text_eq c.id id) (λ c. record c { event_ids = event_ids }) db.conflicts;
}

unfoldable pub close_conflict : Text → Text → Text → Db → Db
close_conflict id resolution_event_id resolved_at db = record db {
  conflicts =
      update_where (λ c. text_eq c.id id)
        (λ c. record c {
          status = resolved;
          resolution_event_id = some resolution_event_id;
          resolved_at = some resolved_at;
        })
        db.conflicts;
}

-- PRIMARY KEY (id) and the index idx_conflicts_one_open_object
abbrev pub conflict_clashes : ConflictRow → ConflictRow → Bool
conflict_clashes new c =
    text_eq c.id new.id || is_open new.status && open_at new.object_type new.object_id c

unfoldable pub insert_conflict : ConflictRow → Db → Result Db
insert_conflict new db =
    if any (conflict_clashes new) db.conflicts
    then err sql_error
    else ok (record db { conflicts = new ∷ db.conflicts })
