-- ===== src/Ledger/Idempotence.antt =====
-- Repeated and failed requests to `appendNow` of server/src/ledger/appender.ts.
use vorcaro_ledger.Database.Action.{◌>>=◌}
use vorcaro_ledger.Prelude.{ℕ, true, Option, none, some, text_eq_refl, ◌≡◌, refl, ap, arith, find}
use vorcaro_ledger.Protocol.Types.{EventStatus, ErrorCode}
use vorcaro_ledger.Protocol.Result.{Result, ok, err, Thrown}
use vorcaro_ledger.Protocol.Envelope.{ServerAck}
use vorcaro_ledger.Protocol.Schema.{parse_envelope, envelope_valid}
use vorcaro_ledger.Protocol.Crypto.{compute_ledger_hash}
use vorcaro_ledger.Database.Tables.{Db, LedgerEventRow}
use vorcaro_ledger.Database.Select.{find_existing_event, next_server_sequence, previous_ledger_hash}
use vorcaro_ledger.Ledger.Rows.{row_of, row_to_ack}
use vorcaro_ledger.Ledger.Append.{Appender, appended_ack, sign_non_appended_ack}
use vorcaro_ledger.Ledger.Admission.{AppendEventRequest, append_now, admit_new}
use vorcaro_ledger.Ledger.Effects.{Appended, sign_server_ack-unsigned}
use vorcaro_ledger.Ledger.Frame.{Appended-frame}
use vorcaro_ledger.Ledger.Outcome.{Outcome, thrown, repeated, refused, written}
use vorcaro_ledger.Ledger.Outcome.Cases.{append_now-Outcome}

module _ (a : Appender) (request : AppendEventRequest) (db : Db) where
  -- An answer without a row has no sequence number.
  pub refused-sequence :
      (code : ErrorCode) (ack : ServerAck)
      → sign_non_appended_ack a request.event.event_id code ≡ ok ack
      → (ack.server_sequence ≡ none)
        × (ack.status ≡ EventStatus.rejected)
        × (ack.error_code ≡ some code)
  unfolding sign_non_appended_ack
  refused-sequence code ack signed =
      let same =
        sign_server_ack-unsigned a.host
          (record {
            event_id = request.event.event_id;
            status = EventStatus.rejected;
            server_sequence = none;
            resulting_ledger_hash = none;
            server_timestamp = a.now;
            error_code = some code;
          })
          a.server_signing_secret_key signed in
      (ground arith, ground arith, ground arith)

  module _ (status : EventStatus) (code : Option ErrorCode) (ack : ServerAck) (db' : Db)
      (done : Appended a request.event status code db ack db') where
    -- The acknowledgement of an append, field by field.
    pub Appended-ack : ack.unsigned ≡ record {
      event_id = request.event.event_id;
      status = status;
      server_sequence = some (next_server_sequence db);
      resulting_ledger_hash = some (
          compute_ledger_hash a.host
            (previous_ledger_hash db)
            (next_server_sequence db)
            request.event);
      server_timestamp = a.now;
      error_code = code;
    }
    unfolding appended_ack
    Appended-ack = sign_server_ack-unsigned a.host _ a.server_signing_secret_key done.signed

    -- The row that an append writes gives the same acknowledgement back.
    pub Appended-row_to_ack : row_to_ack done.row ≡ ack
    unfolding row_to_ack row_of
    Appended-row_to_ack = rw done.row_eq (ground (arith, Appended-ack))

    row_id : done.row.id ≡ request.event.event_id
    unfolding row_of
    row_id = ground (arith, done.row_eq)

    pub Appended-find : find_existing_event request.event.event_id db' ≡ some done.row
    unfolding find_existing_event find
    Appended-find =
        let events =
          ap (λ (d : Db). d.ledger_events)
            (Appended-frame a request.event status code db ack db' done) in
        rw (events, row_id, text_eq_refl request.event.event_id) refl

  -- The row behind an acknowledgement that has a sequence number.
  acknowledged_row :
      (n : ℕ) (ack : ServerAck) (db' : Db) (r : Result ServerAck × Db)
      → Outcome a request db r
      → r ≡ (ok ack, db')
      → ack.server_sequence ≡ some n
      → (row : LedgerEventRow) × (find_existing_event request.event.event_id db' ≡ some row)
        × (row_to_ack row ≡ ack)
  acknowledged_row n ack db' r (thrown e same) h numbered = absurd (ground arith)
  acknowledged_row n ack db' r (repeated row seen same) h numbered =
      (row, ground arith, ground arith)
  acknowledged_row n ack db' r (refused code ack' new signed same) h numbered =
      absurd (ground (arith, refused-sequence code ack' signed))
  acknowledged_row n ack db' r (written status code ack' db'' valid new ruling done same) h
        numbered =
      (
        done.row,
        ground (arith, Appended-find status code ack' db'' done),
        ground (arith, Appended-row_to_ack status code ack' db'' done),
      )

  no_write_on_throw :
      (e : Thrown) (db' : Db) (r : Result ServerAck × Db)
      → Outcome a request db r
      → r ≡ (err e, db')
      → db' ≡ db
  no_write_on_throw e db' r (thrown e' same) h = ground arith
  no_write_on_throw e db' r (repeated row seen same) h = absurd (ground arith)
  no_write_on_throw e db' r (refused code ack new signed same) h = absurd (ground arith)
  no_write_on_throw e db' r (written status code ack db'' valid new ruling done same) h =
      absurd (ground arith)

  -- A request that throws, at whatever statement, leaves the database as it was.
  pub append_now-throws :
      (e : Thrown) (db' : Db) → append_now a request db ≡ (err e, db') → db' ≡ db
  append_now-throws e db' =
      no_write_on_throw e db' (append_now a request db) (append_now-Outcome a request db)

  -- Once an event has been acknowledged with a sequence number, every valid request that carries
  -- its id, at whatever later time and whatever else it carries, gets that same acknowledgement
  -- with the same signature, and writes nothing.
  pub append_now-again :
      (n : ℕ) (ack : ServerAck) (db' : Db)
      → append_now a request db ≡ (ok ack, db')
      → ack.server_sequence ≡ some n
      → (later : Appender) (repeat : AppendEventRequest)
      → repeat.event.event_id ≡ request.event.event_id
      → envelope_valid later.host.is_datetime repeat.event ≡ true
      → append_now later repeat db' ≡ (ok ack, db')
  unfolding ◌>>=◌ append_now parse_envelope admit_new
  append_now-again n ack db' h numbered later repeat same_id valid =
      let (row, seen, gives) =
        acknowledged_row n ack db' (append_now a request db) (append_now-Outcome a request db) h
          numbered in
      rw (valid, same_id, seen, gives) refl
