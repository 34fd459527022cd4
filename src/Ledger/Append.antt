-- ===== src/Ledger/Append.antt =====
-- `appendValidatedEvent`, `appendRejectedEvent` and `signNonAppendedAck` of
-- server/src/ledger/appender.ts.
use vorcaro_ledger.Prelude.{ℕ, Option, none, some, Text}
use vorcaro_ledger.Protocol.Types.{EventStatus, ErrorCode}
use vorcaro_ledger.Protocol.Result.{Result}
use vorcaro_ledger.Protocol.Envelope.{ClientEventEnvelope, ServerAck}
use vorcaro_ledger.Protocol.Crypto.{Host, compute_ledger_hash, sign_server_ack}
use vorcaro_ledger.Database.Action.{
  Action, pure, lift, gets, modify, attempt, transaction, ◌>>=◌, ◌>>◌,
}
use vorcaro_ledger.Database.Select.{next_server_sequence, previous_ledger_hash, to_sql_integer}
use vorcaro_ledger.Database.Insert.{insert_event, set_watermark}
use vorcaro_ledger.Ledger.Rows.{InsertInput, row_of}
use vorcaro_ledger.Ledger.Conflicts.{update_conflict_state, update_object_head}

-- The appender's options, and what `now()` returns during the call.
pub record Appender : Type 0 where
  pub host : Host
  pub server_signing_secret_key : Text
  pub now : Text

unfoldable pub appended_ack :
    Appender → ClientEventEnvelope → EventStatus → Option ErrorCode → ℕ → Text → Result ServerAck
appended_ack a event status error_code sequence hash =
    sign_server_ack a.host
      (record {
        event_id = event.event_id;
        status = status;
        server_sequence = some sequence;
        resulting_ledger_hash = some hash;
        server_timestamp = a.now;
        error_code = error_code;
      })
      a.server_signing_secret_key

-- `insertLedgerEvent`: both numbers must be safe integers.
unfoldable pub insert_ledger_event : Host → InsertInput → Action (Unit {0})
insert_ledger_event host input = do
  lift (to_sql_integer input.event.device_event_counter)
  lift (to_sql_integer input.event.base_server_sequence)
  attempt (insert_event (row_of host input))

unfoldable pub append_statements :
    Appender → ClientEventEnvelope → EventStatus → Option ErrorCode → Action ServerAck
append_statements a event status error_code = do
  server_sequence ← gets next_server_sequence
  previous ← gets previous_ledger_hash
  let resulting = compute_ledger_hash a.host previous server_sequence event
  ack ← lift (appended_ack a event status error_code server_sequence resulting)
  insert_ledger_event a.host (record {
    event = event;
    server_sequence = server_sequence;
    previous_ledger_hash = previous;
    resulting_ledger_hash = resulting;
    server_signature = ack.server_signature;
    status = status;
    error_code = error_code;
    server_timestamp = a.now;
  })
  counter ← lift (to_sql_integer event.device_event_counter)
  modify (set_watermark event.device_id counter a.now)
  attempt (update_conflict_state a.host event server_sequence status a.now)
  modify (update_object_head event server_sequence status)
  pure ack

unfoldable pub append_validated_event :
    Appender → ClientEventEnvelope → EventStatus → Option ErrorCode → Action ServerAck
append_validated_event a event status error_code =
    transaction (append_statements a event status error_code)

unfoldable pub append_rejected_event : Appender → ClientEventEnvelope → ErrorCode → Action ServerAck
append_rejected_event a event error_code =
    append_validated_event a event EventStatus.rejected (some error_code)

-- An answer that leaves no row.
unfoldable pub sign_non_appended_ack : Appender → Text → ErrorCode → Result ServerAck
sign_non_appended_ack a event_id error_code =
    sign_server_ack a.host
      (record {
        event_id = event_id;
        status = EventStatus.rejected;
        server_sequence = none;
        resulting_ledger_hash = none;
        server_timestamp = a.now;
        error_code = some error_code;
      })
      a.server_signing_secret_key
