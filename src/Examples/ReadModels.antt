-- ===== src/Examples/ReadModels.antt =====
-- The projection worker on the ledger that one appended event gives.
use vorcaro_ledger.Projections.Cash.{
  aggregate, aggregate_account, insert_cash_position, insert_positions, read_groups,
  rebuild_cash_position,
}
use vorcaro_ledger.Database.Select.{to_sql_integer}
use vorcaro_ledger.Protocol.Types.{EventStatus-discrete, EventType-discrete, ObjectType-discrete}
use vorcaro_ledger.Ledger.Rows.{row_of, stringify_policy_metadata}
use vorcaro_ledger.Projections.Statements.{
  apply_events, apply_event, upsert_account, parse_policy_metadata, clear_conflicts,
  clear_projection_conflict, insert_open_conflict, insert_or_replace, mark_conflicted,
  open_conflicts, set_account_status, set_meta, sync_each, sync_open_conflicts,
}
use vorcaro_ledger.Prelude.{
  false, some, none, [], ◌∷◌, ◌++◌, Text, codes, length, ◌≡◌, refl, ap, subst, text_eq, any,
  filter_by, find, update_where, take,
}
use vorcaro_ledger.Prelude.Int.{ℤ, pos}
use vorcaro_ledger.Prelude.Sort.{sort, insert}
use vorcaro_ledger.Protocol.Decimal.{read_decimal, read_decimal-decimal, decimal, decimal_ℤ}
use vorcaro_ledger.Protocol.Result.{Result, ok}
use vorcaro_ledger.Ledger.Chain.{IsChain, append_now-IsChain}
use vorcaro_ledger.Projections.Tables.{
  ProjectionsDb, AccountRow, AccountStatus, CashPositionRow, empty_projections,
}
use vorcaro_ledger.Projections.Worker.{
  ProjectionRunResult, read_ledger_events_after, last_applied_sequence, apply_next_batch,
  rebuild_all, run_batch, batch_statements, numbered_events, finish_batch, to_sequence,
}
use vorcaro_ledger.Projections.Rebuild.{Ends, rebuild_all-Ends}
use vorcaro_ledger.Projections.Batches.{mark_row}
use vorcaro_ledger.Projections.Rounds.{rest_of}
use vorcaro_ledger.Projections.Equivalence.{rebuild_all-apply_next_batch}
use vorcaro_ledger.Projections.Liveness.{ReadsDecimal, rebuild_all_returns}
use vorcaro_ledger.Projections.Coverage.{apply_next_batch-rest}
use vorcaro_ledger.Examples.Host.{plain_host, morning}
use vorcaro_ledger.Examples.Samples.{fresh_db, first_request}
use vorcaro_ledger.Examples.Admissions.{first_db, first_runs}

abbrev read_big_int : Text → Result ℤ
read_big_int text = ok (pos (read_decimal text))

read_big_int-ReadsDecimal : ReadsDecimal read_big_int
read_big_int-ReadsDecimal n = ap (λ k. ok (pos k)) (read_decimal-decimal n)

first_db-IsChain : IsChain plain_host first_db.ledger_events
first_db-IsChain =
    subst (λ r. IsChain plain_host r.1.ledger_events) first_runs
      (append_now-IsChain morning first_request fresh_db tt)

abbrev first_account : AccountRow
first_account = record {
  account_id = codes "a1";
  entity_id = codes "unknown";
  name = codes "a1";
  account_type = codes "checking";
  institution_name = codes "unknown";
  account_number_masked = codes "unknown";
  currency = codes "USD";
  balance_minor_units = 0;
  as_of_sequence = 1;
  status = AccountStatus.active;
  conflicted = false;
}

abbrev first_position : CashPositionRow
first_position = record {
  entity_id = codes "unknown";
  currency = codes "USD";
  total_minor_units = 0;
  default_currency = none;
  default_total_minor_units = none;
  default_currency_snapshot_id = none;
  pending_delta_minor_units = 0;
  as_of_sequence = 1;
}

abbrev first_projections : ProjectionsDb
first_projections = record empty_projections {
  proj_meta = mark_row 1 ∷ [];
  proj_accounts = first_account ∷ [];
  proj_cash_position = first_position ∷ [];
}

abbrev first_run : ProjectionRunResult
first_run = record { from_sequence = 0; to_sequence = 1; applied_events = 1 }

batch_runs :
    apply_next_batch read_big_int 1 first_db empty_projections ≡ (ok first_run, first_projections)
unfolding apply_next_batch run_batch batch_statements apply_events read_ledger_events_after take
    sort filter_by numbered_events row_of last_applied_sequence find insert apply_event
    EventStatus-discrete EventType-discrete upsert_account parse_policy_metadata to_sql_integer
    stringify_policy_metadata any update_where text_eq aggregate aggregate_account
    insert_cash_position insert_positions read_groups rebuild_cash_position clear_conflicts
    clear_projection_conflict insert_open_conflict insert_or_replace mark_conflicted open_conflicts
    set_account_status set_meta sync_each sync_open_conflicts finish_batch to_sequence decimal
    decimal_ℤ ObjectType-discrete
batch_runs = refl

rebuild_all-Ends_example : Ends (rebuild_all read_big_int 2 first_db first_projections)
rebuild_all-Ends_example = rebuild_all-Ends read_big_int first_db first_projections

rebuild_all-apply_next_batch_example :
    rebuild_all read_big_int 2 first_db first_projections ≡ some (ok first_run, first_projections)
rebuild_all-apply_next_batch_example =
    rebuild_all-apply_next_batch read_big_int first_db plain_host first_projections
      first_projections first_run first_db-IsChain batch_runs

rebuild_all_returns_example :
    (run : ProjectionRunResult) × (p' : ProjectionsDb) × (rebuild_all read_big_int 2 first_db
        first_projections
      ≡ some (ok run, p'))
rebuild_all_returns_example =
    rebuild_all_returns read_big_int plain_host first_db first_projections read_big_int-ReadsDecimal
      first_db-IsChain tt

apply_next_batch-rest_example :
    (rest_of first_db empty_projections
      ≡ read_ledger_events_after (last_applied_sequence empty_projections) 1 first_db
        ++ rest_of first_db first_projections)
    × (1 ≡ length (read_ledger_events_after (last_applied_sequence empty_projections) 1 first_db))
    × (1 ≡ last_applied_sequence first_projections)
apply_next_batch-rest_example =
    apply_next_batch-rest read_big_int plain_host 1 first_db empty_projections first_projections
      first_run first_db-IsChain batch_runs
