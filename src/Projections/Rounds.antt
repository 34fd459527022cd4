-- ===== src/Projections/Rounds.antt =====
-- A round of `applyNextBatch` of server/src/projections/worker.ts, in its statements.
use vorcaro_ledger.Prelude.{
  ℕ, suc, ◌+◌, ◌<◌, false, Option, List, [], ◌∷◌, Text, filter_by, take, drop, length,
  length-append, ◌==◌, ◌≡◌, refl, sym, ap, ◌∙◌, arith,
}
use vorcaro_ledger.Prelude.Int.{ℤ}
use vorcaro_ledger.Protocol.Result.{Result, ok, bind_ok, ◌>>=◌}
use vorcaro_ledger.Database.Tables.{Db}
use vorcaro_ledger.Projections.Tables.{ProjectionsDb, AccountRow, OpenConflictRow, CashPositionRow}
use vorcaro_ledger.Projections.Statements.{LedgerEvent, open_conflicts}
use vorcaro_ledger.Projections.Worker.{
  ProjectionRunResult, is_after, last_applied_sequence, to_sequence, batch_statements, run_batch,
  apply_next_batch, after_round,
}
use vorcaro_ledger.Projections.Frame.{
  map_ok, with_accounts, apply_all_accounts, insert_all, apply_events-Frame,
}
use vorcaro_ledger.Projections.Totals.{AllZero, groups-AllZero}
use vorcaro_ledger.Projections.Accounts.{
  strip, apply_all_accounts-append, AllZero-strip, AllZero-mark_all, AllZero-apply_all_accounts,
}
use vorcaro_ledger.Projections.Order.{take-drop}
use vorcaro_ledger.Projections.Progress.{all_events, read_ledger_events_after-all_events}
use vorcaro_ledger.Projections.Batches.{
  IsClean, built, cash_of, marked_accounts, with_accounts-IsClean, finish_batch-built,
}

pub take-nil : (k : ℕ) (es : List LedgerEvent) → length (take (suc k) es) ≡ 0 → es ≡ []
unfolding take
take-nil k [] h = refl
take-nil k (e ∷ es) h = absurd (omega arith)

pub after_round-more :
    (total : ℕ) (continue : ℕ → ProjectionsDb → Option (Result ProjectionRunResult × ProjectionsDb))
    (run : ProjectionRunResult) (p : ProjectionsDb)
    → (run.applied_events == 0) ≡ false
    → after_round total continue (ok run, p) ≡ continue (total + run.applied_events) p
unfolding after_round
after_round-more total continue run p h = rw (after_round, h) refl

-- The events behind the mark of the read model.
abbrev pub rest_of : Db → ProjectionsDb → List LedgerEvent
rest_of ledger p = filter_by (is_after (last_applied_sequence p)) (all_events ledger)

abbrev pub run_over : ℕ → List LedgerEvent → ProjectionRunResult
run_over n events = record {
  from_sequence = n;
  to_sequence = to_sequence n events;
  applied_events = length events;
}

pub length-drop :
    (k : ℕ) (es : List LedgerEvent) → length (take k es) + length (drop k es) ≡ length es
length-drop k es = sym (length-append (take k es) (drop k es)) ∙ ap length (take-drop k es)

pub fewer_left :
    (k fuel : ℕ) (es : List LedgerEvent)
    → (length (take k es) == 0) ≡ false
    → length es < suc fuel
    → length (drop k es) < fuel
fewer_left k fuel es some_read enough = ground (arith, length-drop k es)

module _ (big_int : Text → Result ℤ) (ledger : Db) where
  -- Where the events apply to the accounts, the statements of their batch all succeed.
  pub batch_statements-built :
      (events : List LedgerEvent) (n : ℕ) (p : ProjectionsDb) (rows : List OpenConflictRow)
      (xs : List AccountRow)
      → IsClean p
      → AllZero p.proj_accounts
      → insert_all (open_conflicts ledger) [] ≡ ok rows
      → apply_all_accounts big_int events p.proj_accounts ≡ ok xs
      → (cash : List CashPositionRow) × (cash_of (marked_accounts ledger xs) ≡ ok cash)
        × (batch_statements big_int ledger events n p
            ≡ ok (built (marked_accounts ledger xs) rows cash n))
  unfolding batch_statements
  batch_statements-built events n p rows xs clean zeros inserted applied =
      let zeros' = AllZero-apply_all_accounts big_int events p.proj_accounts xs zeros applied in
      let (cash, counted) =
        groups-AllZero (marked_accounts ledger xs)
          (AllZero-mark_all (open_conflicts ledger) (strip xs) (AllZero-strip xs zeros')) in
      let done =
        finish_batch-built ledger n (with_accounts p xs) rows cash
          (with_accounts-IsClean p xs clean) inserted counted in
      (cash, counted, rw (apply_events-Frame big_int events p, applied) done)

  pub apply_next_batch-run_batch :
      (limit : ℕ) (p : ProjectionsDb)
      → apply_next_batch big_int limit ledger p
        ≡ run_batch big_int ledger (last_applied_sequence p) (take limit (rest_of ledger p)) p
  unfolding apply_next_batch
  apply_next_batch-run_batch limit p =
      ap (λ es. run_batch big_int ledger (last_applied_sequence p) es p)
        (read_ledger_events_after-all_events ledger (last_applied_sequence p) limit)

  pub run_batch-ok :
      (n : ℕ) (es : List LedgerEvent) (p p' : ProjectionsDb)
      → batch_statements big_int ledger es (to_sequence n es) p ≡ ok p'
      → run_batch big_int ledger n es p ≡ (ok (run_over n es), p')
  unfolding run_batch
  run_batch-ok n es p p' done = rw (run_batch, done) refl

  pub run_batch-inverse :
      (n : ℕ) (es : List LedgerEvent) (p p' : ProjectionsDb) (run : ProjectionRunResult)
      → run_batch big_int ledger n es p ≡ (ok run, p')
      → (batch_statements big_int ledger es (to_sequence n es) p ≡ ok p') × (run ≡ run_over n es)
  unfolding run_batch
  run_batch-inverse n es p p' run h = ground (arith, h)

  -- The first events of those that apply, apply.
  pub apply_take :
      (k : ℕ) (es : List LedgerEvent) (xs ys : List AccountRow)
      → map_ok strip (apply_all_accounts big_int es xs) ≡ ok ys
      → (zs : List AccountRow) × (apply_all_accounts big_int (take k es) xs ≡ ok zs)
        × (map_ok strip (apply_all_accounts big_int (drop k es) zs) ≡ ok ys)
  apply_take k es xs ys h =
      let (all, applied, stripped) =
        bind_ok (apply_all_accounts big_int es xs) (λ a. ok (strip a)) ys h in
      let split : (apply_all_accounts big_int (take k es) xs
            >>= apply_all_accounts big_int (drop k es))
          ≡ ok all =
        sym (apply_all_accounts-append big_int (take k es) (drop k es) xs)
        ∙ ap (λ es. apply_all_accounts big_int es xs) (take-drop k es)
        ∙ applied in
      let (zs, first, rest) =
        bind_ok (apply_all_accounts big_int (take k es) xs) (apply_all_accounts big_int (drop k es))
          all split in
      (zs, first, rw rest stripped)

  pub same_accounts :
      (k : ℕ) (es : List LedgerEvent) (zs ys : List AccountRow)
      → es ≡ []
      → map_ok strip (apply_all_accounts big_int (drop (suc k) es) zs) ≡ ok ys
      → strip zs ≡ ys
  unfolding drop apply_all_accounts
  same_accounts k [] zs ys nothing h = cc
  same_accounts k (e ∷ es) zs ys nothing h = absurd (cc)
