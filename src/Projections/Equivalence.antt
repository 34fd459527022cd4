-- ===== src/Projections/Equivalence.antt =====
-- `rebuildAll` of server/src/projections/worker.ts gives what one batch over all events gives.
use vorcaro_ledger.Prelude.{
  ℕ, zero, suc, ◌+◌, ◌≤◌, Option, some, List, [], ◌∷◌, Text, take, length, ◌≡◌, refl, sym, ap, ◌∙◌,
  arith, find,
}
use vorcaro_ledger.Prelude.Int.{ℤ}
use vorcaro_ledger.Protocol.Result.{Result, ok, bind_ok}
use vorcaro_ledger.Protocol.Crypto.{Host}
use vorcaro_ledger.Database.Tables.{Db}
use vorcaro_ledger.Ledger.Chain.{IsChain}
use vorcaro_ledger.Projections.Tables.{
  ProjectionsDb, AccountRow, OpenConflictRow, CashPositionRow, empty_projections,
}
use vorcaro_ledger.Projections.Statements.{
  LedgerEvent, open_conflicts, apply_events, sync_open_conflicts, clear_conflicts,
}
use vorcaro_ledger.Projections.Worker.{
  ProjectionRunResult, last_applied_sequence, to_sequence, finish_batch, batch_statements,
  run_batch, apply_next_batch, rebuild_all,
}
use vorcaro_ledger.Projections.Frame.{
  map_ok, with_accounts, apply_all_accounts, insert_all, apply_events-Frame, sync_each-Frame,
}
use vorcaro_ledger.Projections.Accounts.{strip}
use vorcaro_ledger.Projections.Order.{sort-numbered_events-IsAscending}
use vorcaro_ledger.Projections.Progress.{left_after_all}
use vorcaro_ledger.Projections.Batches.{built, cash_of, marked_accounts, empty_projections-IsClean}
use vorcaro_ledger.Projections.Rounds.{
  rest_of, batch_statements-built, apply_next_batch-run_batch, run_batch-inverse,
}
use vorcaro_ledger.Projections.Loop.{rebuild_loop-Returns}

take-all : (k : ℕ) (es : List LedgerEvent) → length es ≤ k → take k es ≡ es
unfolding take
take-all zero [] h = refl
take-all zero (e ∷ es) h = absurd (omega arith)
take-all (suc k) [] h = refl
take-all (suc k) (e ∷ es) h = ap (λ xs. e ∷ xs) (take-all k es (omega arith))

-- A run that has come to this end.
abbrev ended :
    Result ProjectionRunResult × ProjectionsDb → Option (Result ProjectionRunResult × ProjectionsDb)
ended r = some r

same_answer :
    (m k k' : ℕ) (accounts : List AccountRow) (rows : List OpenConflictRow)
    (cash cash' : List CashPositionRow) (p' : ProjectionsDb) (run : ProjectionRunResult)
    → k ≡ k'
    → ok (built accounts rows cash m) ≡ ok p'
    → cash_of accounts ≡ ok cash
    → cash_of accounts ≡ ok cash'
    → run ≡ record { from_sequence = 0; to_sequence = m; applied_events = k }
    → ended (
      ok (record { from_sequence = 0; to_sequence = m; applied_events = k' }),
      built accounts rows cash' m,
    )
      ≡ ended (ok run, p')
same_answer m k k' accounts rows cash cash' p' run applied same counted counted' ran = cc

module _ (big_int : Text → Result ℤ) (ledger : Db) where
  -- What a batch from the start that commits has done.
  committed_parts :
      (es : List LedgerEvent) (m : ℕ) (p' : ProjectionsDb)
      → batch_statements big_int ledger es m empty_projections ≡ ok p'
      → (xs : List AccountRow) × (rows : List OpenConflictRow) × (apply_all_accounts big_int es []
          ≡ ok xs)
        × (insert_all (open_conflicts ledger) [] ≡ ok rows)
  unfolding sync_open_conflicts clear_conflicts finish_batch batch_statements
  committed_parts es m p' h =
      let (q, applied, finished) =
        bind_ok (apply_events big_int es empty_projections) (finish_batch ledger m) p' h in
      let (xs, happened, framed) =
        bind_ok (apply_all_accounts big_int es []) (λ ys. ok (with_accounts empty_projections ys)) q
          (sym (apply_events-Frame big_int es empty_projections) ∙ applied) in
      let (synced, is, rest) = bind_ok (sync_open_conflicts ledger q) _ p' finished in
      let (rows, inserted, synced_eq) =
        bind_ok (insert_all (open_conflicts ledger) []) _ synced
          (sym (sync_each-Frame (open_conflicts ledger) (clear_conflicts q)) ∙ is) in
      (xs, rows, happened, inserted)

  -- Where one batch over the whole ledger, from an empty read model, commits, `rebuildAll` returns,
  -- whatever the read model held, with the same result and the same read model, however many
  -- batches it takes; the ledger is a hash chain.
  pub rebuild_all-apply_next_batch :
      (host : Host) (p p' : ProjectionsDb) (run : ProjectionRunResult)
      → IsChain host ledger.ledger_events
      → apply_next_batch big_int (length ledger.ledger_events) ledger empty_projections
        ≡ (ok run, p')
      → rebuild_all big_int (length ledger.ledger_events + 1) ledger p ≡ some (ok run, p')
  unfolding rebuild_all last_applied_sequence find
  rebuild_all-apply_next_batch host p p' run chain h =
      let es = rest_of ledger empty_projections in
      let k = length ledger.ledger_events in
      let enough : length es ≤ k = left_after_all ledger 0 in
      let (committed, ran) = run_batch-inverse big_int ledger 0 es empty_projections p' run (
        ap (λ xs. run_batch big_int ledger 0 xs empty_projections) (sym (take-all k es enough))
        ∙ sym (apply_next_batch-run_batch big_int ledger k empty_projections)
        ∙ h) in
      let (xs, rows, happened, inserted) = committed_parts es (to_sequence 0 es) p' committed in
      let (cash, counted, done) =
        batch_statements-built big_int ledger es (to_sequence 0 es) empty_projections rows xs
          empty_projections-IsClean tt inserted happened in
      let (cash', counted', returns) =
        rebuild_loop-Returns big_int ledger rows inserted
          (sort-numbered_events-IsAscending host ledger.ledger_events chain) (k + 1) 0
          empty_projections (strip xs) empty_projections-IsClean tt (omega (arith, enough))
          (ap (map_ok strip) happened) in
      returns
      ∙ same_answer (to_sequence 0 es) (length es) (0 + length es) (marked_accounts ledger xs) rows
          cash cash' p' run (omega arith) (sym done ∙ committed) counted counted' ran
