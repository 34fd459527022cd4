-- ===== src/Ledger/Frame.antt =====
-- Which tables the statements of server/src/ledger/appender.ts write.
use vorcaro_ledger.Prelude.{ℕ, Option, ◌∷◌, Text, ◌≡◌, arith}
use vorcaro_ledger.Protocol.Types.{EventStatus, ErrorCode}
use vorcaro_ledger.Protocol.Result.{ok}
use vorcaro_ledger.Protocol.Envelope.{ClientEventEnvelope, ServerAck}
use vorcaro_ledger.Protocol.Crypto.{Host}
use vorcaro_ledger.Database.Tables.{Db}
use vorcaro_ledger.Database.Select.{next_server_sequence}
use vorcaro_ledger.Database.Insert.{
  set_watermark, accept_head, conflict_head, resolve_head, set_conflict_events, close_conflict,
  insert_conflict,
}
use vorcaro_ledger.Ledger.Conflicts.{
  update_object_head, update_conflict_state, open_conflict_for, resolve_conflict, record_conflict,
  resolve_found,
}
use vorcaro_ledger.Ledger.Append.{Appender}
use vorcaro_ledger.Ledger.Effects.{Appended, with_row}

-- Only the table of conflicts.
abbrev pub OnlyConflicts : Db → Db → Type 0
OnlyConflicts db db' = db' ≡ record db { conflicts = db'.conflicts }

pub update_conflict_state-frame :
    (host : Host) (event : ClientEventEnvelope) (n : ℕ) (status : EventStatus) (now : Text)
    (db : Db) {db' : Db}
    → update_conflict_state host event n status now db ≡ ok db'
    → OnlyConflicts db db'
unfolding update_conflict_state open_conflict_for resolve_conflict record_conflict resolve_found
    set_conflict_events close_conflict insert_conflict
update_conflict_state-frame host event n status now db h = ground arith

-- Only the table of object heads.
pub update_object_head-frame :
    (event : ClientEventEnvelope) (n : ℕ) (status : EventStatus) (db : Db)
    → update_object_head event n status db
      ≡ record db { object_heads = (update_object_head event n status db).object_heads }
unfolding update_object_head accept_head conflict_head resolve_head
update_object_head-frame event n status db = ground arith

module _ (a : Appender) (event : ClientEventEnvelope) (status : EventStatus)
    (code : Option ErrorCode) (db : Db) (ack : ServerAck) (db' : Db)
    (done : Appended a event status code db ack db') where
  abbrev watermarked : Db
  watermarked =
      set_watermark event.device_id event.device_event_counter a.now (with_row done.row db)

  -- What an append leaves in each table.
  pub Appended-frame : db' ≡ record db {
    ledger_events = done.row ∷ db.ledger_events;
    devices = watermarked.devices;
    conflicts = db'.conflicts;
    object_heads = db'.object_heads;
  }
  unfolding set_watermark
  Appended-frame =
      let settled =
        update_conflict_state-frame a.host event (next_server_sequence db) status a.now watermarked
          done.settled_eq in
      let final = update_object_head-frame event (next_server_sequence db) status done.settled in
      ground (arith, done.final)
