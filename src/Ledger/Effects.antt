-- ===== src/Ledger/Effects.antt =====
-- What one append writes: the row, the watermark, and the conflict and head tables.
use vorcaro_ledger.Prelude.{ℕ, true, Option, ◌∷◌, Text, ◌≡◌, refl, arith}
use vorcaro_ledger.Protocol.Types.{EventStatus, ErrorCode}
use vorcaro_ledger.Protocol.Result.{Result, ok, err, Thrown}
use vorcaro_ledger.Protocol.Envelope.{ClientEventEnvelope, UnsignedServerAck, ServerAck}
use vorcaro_ledger.Protocol.Schema.{parse_unsigned_ack, parse_server_ack}
use vorcaro_ledger.Protocol.Crypto.{Host, compute_ledger_hash, sign_server_ack}
use vorcaro_ledger.Database.Tables.{Db, LedgerEventRow}
use vorcaro_ledger.Database.Action.{transaction, ◌>>=◌}
use vorcaro_ledger.Database.Select.{next_server_sequence, previous_ledger_hash, to_sql_integer}
use vorcaro_ledger.Database.Insert.{insert_event, event_constraints, set_watermark}
use vorcaro_ledger.Ledger.Rows.{InsertInput, row_of}
use vorcaro_ledger.Ledger.Conflicts.{update_conflict_state, update_object_head}
use vorcaro_ledger.Ledger.Append.{
  Appender, appended_ack, append_statements, append_validated_event, insert_ledger_event,
}

-- What is signed is what was asked for.
pub sign_server_ack-unsigned :
    (host : Host) (ack : UnsignedServerAck) (key : Text) {signed : ServerAck}
    → sign_server_ack host ack key ≡ ok signed
    → signed.unsigned ≡ ack
unfolding sign_server_ack parse_unsigned_ack parse_server_ack
sign_server_ack-unsigned host ack key h = ground arith

-- The values that the append of an event computes from the database.
abbrev pub input_at :
    Appender → ClientEventEnvelope → EventStatus → Option ErrorCode → Text → Db → InsertInput
input_at a event status error_code signature db = record {
  event = event;
  server_sequence = next_server_sequence db;
  previous_ledger_hash = previous_ledger_hash db;
  resulting_ledger_hash =
      compute_ledger_hash a.host (previous_ledger_hash db) (next_server_sequence db) event;
  server_signature = signature;
  status = status;
  error_code = error_code;
  server_timestamp = a.now;
}

abbrev pub with_row : LedgerEventRow → Db → Db
with_row row db = record db { ledger_events = row ∷ db.ledger_events }

-- An append that returned.
pub record Appended (a : Appender) (event : ClientEventEnvelope) (status : EventStatus)
    (error_code : Option ErrorCode) (db : Db) (ack : ServerAck) (db' : Db) : Type 0 where
  pub row : LedgerEventRow
  pub row_eq : row ≡ row_of a.host (input_at a event status error_code ack.server_signature db)
  pub signed :
      appended_ack a event status error_code
        (next_server_sequence db)
        (compute_ledger_hash a.host (previous_ledger_hash db) (next_server_sequence db) event)
      ≡ ok ack
  pub counter_safe : to_sql_integer event.device_event_counter ≡ ok event.device_event_counter
  pub unclashing : event_constraints row db ≡ true
  pub settled : Db
  pub settled_eq :
      update_conflict_state a.host event
        (next_server_sequence db)
        status
        a.now
        (set_watermark event.device_id event.device_event_counter a.now (with_row row db))
      ≡ ok settled
  pub final : db' ≡ update_object_head event (next_server_sequence db) status settled

to_sql_integer-eq-ok : (n m : ℕ) → to_sql_integer n ≡ ok m → m ≡ n
unfolding to_sql_integer
to_sql_integer-eq-ok n m h = ground arith

abbrev ok_or : Result Db → Db → Db
ok_or (ok db) _ = db
ok_or (err _) db = db

module _ (a : Appender) (event : ClientEventEnvelope) (status : EventStatus)
    (error_code : Option ErrorCode) (db : Db) {ack : ServerAck} {db' : Db} where
  pub append_statements-Appended :
      append_statements a event status error_code db ≡ (ok ack, db')
      → Appended a event status error_code db ack db'
  unfolding ◌>>=◌ append_statements insert_ledger_event insert_event to_sql_integer
  append_statements-Appended h =
      let row = row_of a.host (input_at a event status error_code ack.server_signature db) in
      let settled =
        ok_or
          (update_conflict_state a.host event (next_server_sequence db) status a.now
            (set_watermark event.device_id event.device_event_counter a.now (with_row row db)))
          db in
      record {
        row = row;
        row_eq = refl;
        signed = ground arith;
        counter_safe = ground arith;
        unclashing = ground arith;
        settled = settled;
        settled_eq = ground arith;
        final = ground arith;
      }

  pub append_validated_event-Appended :
      append_validated_event a event status error_code db ≡ (ok ack, db')
      → Appended a event status error_code db ack db'
  unfolding append_validated_event transaction
  append_validated_event-Appended h = append_statements-Appended (ground arith)

module _ (a : Appender) (event : ClientEventEnvelope) (status : EventStatus)
    (error_code : Option ErrorCode) (db : Db) where
  -- An append that throws has written nothing.
  pub append_validated_event-err :
      {e : Thrown}
      → (append_validated_event a event status error_code db).0 ≡ err e
      → append_validated_event a event status error_code db ≡ (err e, db)
  unfolding append_validated_event transaction
  append_validated_event-err h = ground arith
