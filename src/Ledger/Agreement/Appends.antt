-- ===== src/Ledger/Agreement/Appends.antt =====
-- Every request to `appendNow` of server/src/ledger/appender.ts keeps marks and conflicts agreed.
use vorcaro_ledger.Prelude.{
  ℕ, true, false, Option, none, some, Option-cases, inl, inr, Text, text_eq_iff, ◌≡◌, ◌∙◌, refl,
  subst, arith, is_defined, is_yes_iff,
}
use vorcaro_ledger.Protocol.Types.{
  EventStatus, EventType, ErrorCode, ObjectType, ObjectType-discrete,
}
use vorcaro_ledger.Protocol.Result.{Result, ok}
use vorcaro_ledger.Protocol.Envelope.{ServerAck}
use vorcaro_ledger.Database.Tables.{Db, ConflictRow, LedgerEventRow, open_conflict}
use vorcaro_ledger.Database.Select.{find_object_head, find_open_conflict, next_server_sequence}
use vorcaro_ledger.Database.Insert.{
  set_watermark, accept_head, conflict_head, resolve_head, close_conflict, insert_conflict,
}
use vorcaro_ledger.Ledger.Conflicts.{
  update_object_head, update_conflict_state, open_conflict_for, resolve_conflict, record_conflict,
  resolve_found, new_conflict, conflict_event_ids,
}
use vorcaro_ledger.Ledger.Append.{Appender}
use vorcaro_ledger.Ledger.Admission.{AppendEventRequest, append_now, is_conflicted}
use vorcaro_ledger.Ledger.Effects.{Appended, with_row}
use vorcaro_ledger.Ledger.Outcome.{
  Outcome, thrown, repeated, refused, written, Ruling, rejects, waits, resolves, changes, collides,
  head_of, conflict_of,
}
use vorcaro_ledger.Ledger.Outcome.Cases.{append_now-Outcome}
use vorcaro_ledger.Ledger.Agreement.{Agrees}
use vorcaro_ledger.Ledger.Agreement.Heads.{
  same_object, accept_head-marks, conflict_head-marks, resolve_head-marks,
}
use vorcaro_ledger.Ledger.Agreement.Records.{
  close_conflict-open, close_conflict-NoClash, insert_conflict-open, insert_conflict-NoClash,
}

-- The tables of heads and of conflicts are those of another database.
record SameMarks (db db' : Db) : Type 0 where
  heads : db'.object_heads ≡ db.object_heads
  conflicts : db'.conflicts ≡ db.conflicts

SameMarks-Agrees : (db db' : Db) → SameMarks db db' → Agrees db → Agrees db'
unfolding find_object_head find_open_conflict
SameMarks-Agrees db db' same agreed = record {
  marked = λ t id. rw (same.heads, same.conflicts) (agreed.marked t id);
  no_clash = rw same.conflicts agreed.no_clash;
}

module _ (t u : ObjectType) (id key : Text) (db : Db) where
  same_conflict :
      same_object u key t id ≡ true → find_open_conflict u key db ≡ find_open_conflict t id db
  same_conflict same =
      let type : u ≡ t = (is_yes_iff (ObjectType-discrete u t)).0 (ground arith) in
      let name : key ≡ id = (text_eq_iff key id).0 (ground arith) in rw (type, name)

module _ (t : ObjectType) (id : Text) (n : ℕ) (db : Db) (agreed : Agrees db) where
  accept_head-Agrees :
      is_conflicted (find_object_head t id db) ≡ false → Agrees (accept_head t id n db)
  unfolding accept_head find_open_conflict
  accept_head-Agrees unmarked = record {
    marked = λ u key.
        accept_head-marks t u id key n db
        ∙ ground (arith, same_conflict t u id key db, agreed.marked u key, agreed.marked t id);
    no_clash = agreed.no_clash;
  }

-- The statements on heads leave the conflicts alone, and the other way round.
module _ (t u : ObjectType) (id key : Text) (n : ℕ) (db : Db) where
  resolve_head-conflict :
      find_open_conflict u key (resolve_head t id n db) ≡ find_open_conflict u key db
  unfolding find_open_conflict resolve_head
  resolve_head-conflict = refl

  conflict_head-conflict :
      find_open_conflict u key (conflict_head t id db) ≡ find_open_conflict u key db
  unfolding find_open_conflict conflict_head
  conflict_head-conflict = refl

close_conflict-head :
    (c event_id now : Text) (db : Db) (u : ObjectType) (key : Text)
    → find_object_head u key (close_conflict c event_id now db) ≡ find_object_head u key db
unfolding find_object_head close_conflict
close_conflict-head c event_id now db u key = refl

insert_conflict-head :
    (new : ConflictRow) (db db' : Db)
    → insert_conflict new db ≡ ok db'
    → (u : ObjectType) (key : Text) → find_object_head u key db' ≡ find_object_head u key db
unfolding find_object_head insert_conflict
insert_conflict-head new db db' added u key =
    let heads : db'.object_heads ≡ db.object_heads = ground arith in rw heads

module _ (t : ObjectType) (id : Text) (n : ℕ) (db : Db) (agreed : Agrees db) where
  -- A resolution closes the open conflict and clears the mark.
  resolution-Agrees :
      (event_id now : Text) (c : ConflictRow)
      → find_open_conflict t id db ≡ some c
      → Agrees (resolve_head t id n (close_conflict c.id event_id now db))
  resolution-Agrees event_id now c here =
      let settled = close_conflict c.id event_id now db in
      record {
        marked = λ u key.
            resolve_head-marks t u id key n settled
            ∙ ground (
              arith,
              agreed.marked u key,
              resolve_head-conflict t u id key n settled,
              close_conflict-head c.id event_id now db u key,
              close_conflict-open event_id now t id c db agreed.no_clash here u key,
            );
        no_clash =
            unfold resolve_head in close_conflict-NoClash event_id now t id c db agreed.no_clash;
      }

  -- A collision opens a conflict and sets the mark.
  collision-Agrees :
      (new : ConflictRow) (settled : Db)
      → insert_conflict new db ≡ ok settled
      → new.object_type ≡ t
      → new.object_id ≡ id
      → new.status ≡ open_conflict
      → Agrees (conflict_head t id settled)
  collision-Agrees new settled added type name is = record {
    marked = λ u key.
        conflict_head-marks t u id key n settled
        ∙ ground (
          arith,
          agreed.marked u key,
          conflict_head-conflict t u id key n settled,
          insert_conflict-head new db settled added u key,
          insert_conflict-open new db settled added is u key,
        );
    no_clash = unfold conflict_head in insert_conflict-NoClash new db settled added agreed.no_clash;
  }

module _ (a : Appender) (request : AppendEventRequest) (db : Db) (code : Option ErrorCode)
    (ack : ServerAck) (db' : Db) where
  abbrev with_event : LedgerEventRow → Db
  with_event row =
      set_watermark request.event.device_id request.event.device_event_counter a.now
        (with_row row db)

  with_event_marks : (row : LedgerEventRow) → SameMarks db (with_event row)
  unfolding set_watermark
  with_event_marks row = record { heads = refl; conflicts = refl }

  with_event-head :
      (row : LedgerEventRow) (u : ObjectType) (key : Text)
      → find_object_head u key (with_event row) ≡ find_object_head u key db
  unfolding find_object_head set_watermark
  with_event-head row u key = refl

  with_event-conflict :
      (row : LedgerEventRow) (u : ObjectType) (key : Text)
      → find_open_conflict u key (with_event row) ≡ find_open_conflict u key db
  unfolding find_open_conflict set_watermark
  with_event-conflict row u key = refl

  -- Rejected and pending events touch neither table.
  idle_Agrees :
      (status : EventStatus) (done : Appended a request.event status code db ack db')
      → db' ≡ with_event done.row
      → Agrees db
      → Agrees db'
  idle_Agrees status done is agreed =
      rw is (SameMarks-Agrees db (with_event done.row) (with_event_marks done.row) agreed)

  rejected_Agrees :
      Appended a request.event EventStatus.rejected code db ack db' → Agrees db → Agrees db'
  unfolding update_object_head update_conflict_state
  rejected_Agrees done = idle_Agrees EventStatus.rejected done (ground (arith, done.final))

  pending_Agrees :
      Appended a request.event EventStatus.pending code db ack db' → Agrees db → Agrees db'
  unfolding update_object_head update_conflict_state
  pending_Agrees done = idle_Agrees EventStatus.pending done (ground (arith, done.final))

  change_Agrees :
      Appended a request.event EventStatus.accepted code db ack db'
      → ¬ (request.event.event_type ≡ EventType.conflict_resolved)
      → is_conflicted (head_of a request db) ≡ false
      → Agrees db
      → Agrees db'
  unfolding update_object_head update_conflict_state
  change_Agrees done change unmarked agreed =
      let e = request.event in
      let settled = with_event done.row in
      let is : db' ≡ accept_head e.object_type e.object_id (next_server_sequence db) settled =
        ground (arith, done.final) in
      rw is (
        accept_head-Agrees e.object_type e.object_id (next_server_sequence db) settled
          (SameMarks-Agrees db settled (with_event_marks done.row) agreed)
          (rw (with_event-head done.row e.object_type e.object_id) unmarked))

  resolution_Agrees :
      Appended a request.event EventStatus.accepted code db ack db'
      → request.event.event_type ≡ EventType.conflict_resolved
      → is_defined (conflict_of a request db) ≡ true
      → Agrees db
      → Agrees db'
  unfolding update_object_head update_conflict_state resolve_conflict resolve_found
  resolution_Agrees done resolution listed agreed = elim (Option-cases (conflict_of a request db)) [
    | inl missing ↦ absurd (ground arith)
    | inr (c, here) ↦
        let e = request.event in
        let settled = with_event done.row in
        let here' = with_event-conflict done.row e.object_type e.object_id ∙ here in
        let is : db'
            ≡ resolve_head e.object_type e.object_id (next_server_sequence db)
                (close_conflict c.id e.event_id a.now settled) =
          ground (arith, done.final, done.settled_eq) in
        rw is (
          resolution-Agrees e.object_type e.object_id (next_server_sequence db) settled
            (SameMarks-Agrees db settled (with_event_marks done.row) agreed) e.event_id a.now c
            here')
  ]

  collision_Agrees :
      Appended a request.event EventStatus.conflicted code db ack db'
      → is_conflicted (head_of a request db) ≡ false
      → Agrees db
      → Agrees db'
  unfolding update_object_head update_conflict_state open_conflict_for record_conflict new_conflict
  collision_Agrees done unmarked agreed =
      let e = request.event in
      let before = with_event done.row in
      let n = next_server_sequence db in
      let new = new_conflict a.host e n a.now (conflict_event_ids e before) in
      let unlisted : find_open_conflict e.object_type e.object_id before ≡ none =
        rw (with_event-conflict done.row e.object_type e.object_id)
          (ground (arith, agreed.marked e.object_type e.object_id)) in
      let added : insert_conflict new before ≡ ok done.settled = ground (arith, done.settled_eq) in
      rw done.final (
        collision-Agrees e.object_type e.object_id n before
          (SameMarks-Agrees db before (with_event_marks done.row) agreed) new done.settled added
          refl refl refl)

module _ (a : Appender) (request : AppendEventRequest) (db : Db) where
  Ruling-Agrees :
      (status : EventStatus) (code : Option ErrorCode) (ack : ServerAck) (db' : Db)
      → Ruling a request db status code
      → Appended a request.event status code db ack db'
      → Agrees db
      → Agrees db'
  Ruling-Agrees status code ack db' (rejects c is why) done =
      rejected_Agrees a request db code ack db'
        (subst (λ s. Appended a request.event s code db ack db') is done)
  Ruling-Agrees status code ack db' (waits auth roles count said is why) done =
      pending_Agrees a request db code ack db'
        (subst (λ s. Appended a request.event s code db ack db') is done)
  Ruling-Agrees status code ack db' (resolves auth said type marked listed is why) done =
      resolution_Agrees a request db code ack db'
        (subst (λ s. Appended a request.event s code db ack db') is done) type listed
  Ruling-Agrees status code ack db' (changes auth said type unmarked fits is why) done =
      change_Agrees a request db code ack db'
        (subst (λ s. Appended a request.event s code db ack db') is done) type unmarked
  Ruling-Agrees status code ack db' (collides auth said type unmarked late is why) done =
      collision_Agrees a request db code ack db'
        (subst (λ s. Appended a request.event s code db ack db') is done) unmarked

  Outcome-Agrees : (r : Result ServerAck × Db) → Outcome a request db r → Agrees db → Agrees r.1
  Outcome-Agrees r (thrown e same) agreed = rw same agreed
  Outcome-Agrees r (repeated row seen same) agreed = rw same agreed
  Outcome-Agrees r (refused code ack new signed same) agreed = rw same agreed
  Outcome-Agrees r (written status code ack db' valid new ruling done same) agreed =
      rw same (Ruling-Agrees status code ack db' ruling done agreed)

  -- Every request keeps this: an object's head is marked as conflicted exactly if the object has an
  -- open conflict, no two conflicts share an id, and no two open ones an object.
  pub append_now-Agrees : Agrees db → Agrees (append_now a request db).1
  append_now-Agrees = Outcome-Agrees (append_now a request db) (append_now-Outcome a request db)
