-- ===== src/Ledger/Conflicts.antt =====
-- `updateObjectHead`, `updateConflictState`, `openConflict` and `resolveConflict` of
-- server/src/ledger/appender.ts.
use vorcaro_ledger.Prelude.{
  take, ℕ, Option, none, some, List, [], ◌∷◌, ◌++◌, Text, codes, text_eq, any, if◌then◌else◌,
}
use vorcaro_ledger.Protocol.Types.{EventStatus, EventType, ObjectType, event_type_eq}
use vorcaro_ledger.Protocol.Result.{Result, ok, err, plain_error}
use vorcaro_ledger.Protocol.Spelling.{object_type_text}
use vorcaro_ledger.Protocol.Decimal.{decimal}
use vorcaro_ledger.Protocol.Envelope.{ClientEventEnvelope}
use vorcaro_ledger.Protocol.Crypto.{Host}
use vorcaro_ledger.Database.Tables.{Db, ObjectHeadRow, ConflictRow, open_conflict}
use vorcaro_ledger.Database.Select.{find_object_head, find_open_conflict, find_head_event_id}
use vorcaro_ledger.Database.Insert.{
  accept_head, conflict_head, resolve_head, set_conflict_events, close_conflict, insert_conflict,
}

unfoldable pub update_object_head : ClientEventEnvelope → ℕ → EventStatus → Db → Db
update_object_head event sequence EventStatus.accepted db =
    if event_type_eq event.event_type EventType.conflict_resolved
    then resolve_head event.object_type event.object_id sequence db
    else accept_head event.object_type event.object_id sequence db
update_object_head event sequence EventStatus.conflicted db =
    conflict_head event.object_type event.object_id db
update_object_head event sequence _ db = db

-- `if (id !== undefined && !ids.includes(id)) ids.push(id)`
unfoldable pub push_new : Option Text → List Text → List Text
push_new none ids = ids
push_new (some id) ids = if any (text_eq id) ids then ids else ids ++ id ∷ []

unfoldable pub head_event_id : Option ObjectHeadRow → Db → Option Text
head_event_id none db = none
head_event_id (some head) db = find_head_event_id head.head_sequence db

abbrev listed_events : Option ConflictRow → List Text
listed_events none = []
listed_events (some c) = c.event_ids

-- The events of a conflict, with the head's and the new one added once each.
unfoldable pub conflict_event_ids : ClientEventEnvelope → Db → List Text
conflict_event_ids event db = push_new (some event.event_id) (
    push_new (head_event_id (find_object_head event.object_type event.object_id db) db)
      (listed_events (find_open_conflict event.object_type event.object_id db)))

unfoldable pub conflict_id : Host → ObjectType → Text → ℕ → Text
conflict_id host object_type object_id sequence =
    codes "cfl_"
    ++ take 26 (
        host.sha256_hex
          (host.utf8 (object_type_text object_type ++ b':' ∷ object_id ++ b':' ∷ decimal sequence)))

unfoldable pub new_conflict : Host → ClientEventEnvelope → ℕ → Text → List Text → ConflictRow
new_conflict host event sequence timestamp event_ids = record {
  id = conflict_id host event.object_type event.object_id sequence;
  object_type = event.object_type;
  object_id = event.object_id;
  event_ids = event_ids;
  detected_at_sequence = sequence;
  status = open_conflict;
  resolution_event_id = none;
  created_at = timestamp;
  resolved_at = none;
}

unfoldable pub record_conflict :
    Host → ClientEventEnvelope → ℕ → Text → List Text → Option ConflictRow → Db → Result Db
record_conflict host event sequence timestamp event_ids (some c) db =
    ok (set_conflict_events c.id event_ids db)
record_conflict host event sequence timestamp event_ids none db =
    insert_conflict (new_conflict host event sequence timestamp event_ids) db

unfoldable pub open_conflict_for : Host → ClientEventEnvelope → ℕ → Text → Db → Result Db
open_conflict_for host event sequence timestamp db =
    record_conflict host event sequence timestamp (conflict_event_ids event db)
      (find_open_conflict event.object_type event.object_id db) db

unfoldable pub resolve_found : ClientEventEnvelope → Text → Option ConflictRow → Db → Result Db
resolve_found event timestamp none db = err plain_error
resolve_found event timestamp (some c) db = ok (close_conflict c.id event.event_id timestamp db)

unfoldable pub resolve_conflict : ClientEventEnvelope → Text → Db → Result Db
resolve_conflict event timestamp db =
    resolve_found event timestamp (find_open_conflict event.object_type event.object_id db) db

unfoldable pub update_conflict_state :
    Host → ClientEventEnvelope → ℕ → EventStatus → Text → Db → Result Db
update_conflict_state host event sequence EventStatus.conflicted timestamp db =
    open_conflict_for host event sequence timestamp db
update_conflict_state host event sequence EventStatus.accepted timestamp db =
    if event_type_eq event.event_type EventType.conflict_resolved
    then resolve_conflict event timestamp db
    else ok db
update_conflict_state host event sequence _ timestamp db = ok db
