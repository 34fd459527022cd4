-- ===== src/Projections/Rebuild.antt =====
-- The loop of `rebuildAll` of server/src/projections/worker.ts comes to an end.
use vorcaro_ledger.Prelude.{
  ℕ, zero, suc, ◌+◌, ◌≤◌, ◌<◌, Option, some, List, Text, length, ◌==◌, ◌≡◌, ◌⊎◌, refl, inl, inr,
  arith, Bool-cases,
}
use vorcaro_ledger.Prelude.Int.{ℤ}
use vorcaro_ledger.Protocol.Result.{Result, ok, err, Thrown, Result-cases}
use vorcaro_ledger.Database.Tables.{Db}
use vorcaro_ledger.Projections.Tables.{ProjectionsDb, empty_projections}
use vorcaro_ledger.Projections.Statements.{LedgerEvent}
use vorcaro_ledger.Projections.Worker.{
  ProjectionRunResult, read_ledger_events_after, last_applied_sequence, to_sequence,
  batch_statements, run_batch, apply_next_batch, batch_limit, after_round, rebuild_loop,
  rebuild_all,
}
use vorcaro_ledger.Projections.Progress.{
  left_after, left_after_all, all_events, read-Progress, batch_statements-last_applied_sequence,
}

module _ (ledger : Db) where
  abbrev pub next_events : ProjectionsDb → List LedgerEvent
  next_events p = read_ledger_events_after (last_applied_sequence p) batch_limit ledger

  abbrev pub next_sequence : ProjectionsDb → ℕ
  next_sequence p = to_sequence (last_applied_sequence p) (next_events p)

  abbrev pub run_of : ProjectionsDb → ProjectionRunResult
  run_of p = record {
    from_sequence = last_applied_sequence p;
    to_sequence = next_sequence p;
    applied_events = length (next_events p);
  }

  abbrev pub left_behind : ProjectionsDb → ℕ
  left_behind p = left_after (last_applied_sequence p) (all_events ledger)

  left_behind_le : (p : ProjectionsDb) → left_behind p ≤ length ledger.ledger_events
  left_behind_le p = left_after_all ledger (last_applied_sequence p)

-- A run that has not run out of fuel.
abbrev pub Ends : Option (Result ProjectionRunResult × ProjectionsDb) → Type 0
Ends o = (r : Result ProjectionRunResult × ProjectionsDb) × (o ≡ some r)

module _ (big_int : Text → Result ℤ) (ledger : Db) where
  -- How a batch ends.
  pub data Batch (p : ProjectionsDb) : Result ProjectionRunResult × ProjectionsDb → Type 0 where
    rolled_back :
        (e : Thrown)
        → batch_statements big_int ledger (next_events ledger p) (next_sequence ledger p) p ≡ err e
        → Batch p (err e, p)
    committed :
        (p' : ProjectionsDb)
        → batch_statements big_int ledger (next_events ledger p) (next_sequence ledger p) p ≡ ok p'
        → Batch p (ok (run_of ledger p), p')

  run_batch-Batch :
      (p : ProjectionsDb)
      → Batch p (run_batch big_int ledger (last_applied_sequence p) (next_events ledger p) p)
  unfolding run_batch
  run_batch-Batch p =
      elim (Result-cases
        (batch_statements big_int ledger (next_events ledger p) (next_sequence ledger p) p)) [
          | inl (p', is) ↦ rw (run_batch, is) (committed p' is)
          | inr (e, threw) ↦ rw (run_batch, threw) (rolled_back e threw)
        ]

  pub apply_next_batch-Batch :
      (p : ProjectionsDb) → Batch p (apply_next_batch big_int batch_limit ledger p)
  unfolding apply_next_batch
  apply_next_batch-Batch p = run_batch-Batch p

  -- A committed batch that applied events leaves fewer behind.
  committed-Progress :
      (p p' : ProjectionsDb)
      → batch_statements big_int ledger (next_events ledger p) (next_sequence ledger p) p ≡ ok p'
      → (length (next_events ledger p) ≡ 0) ⊎ (left_behind ledger p' < left_behind ledger p)
  committed-Progress p p' is =
      rw
        (batch_statements-last_applied_sequence big_int ledger (next_events ledger p)
          (next_sequence ledger p) p p' is)
        (read-Progress ledger (last_applied_sequence p) 499)

  after_round-Ends :
      (fuel total : ℕ) (p : ProjectionsDb) (r : Result ProjectionRunResult × ProjectionsDb)
      → Batch p r
      → left_behind ledger p < suc fuel
      → ((total' : ℕ) (p' : ProjectionsDb)
          → left_behind ledger p' < fuel
          → Ends (rebuild_loop big_int fuel total' ledger p'))
      → Ends (after_round total (λ t q. rebuild_loop big_int fuel t ledger q) r)
  unfolding after_round
  after_round-Ends fuel total p r (rolled_back e threw) h continue = ((err e, p), refl)
  after_round-Ends fuel total p r (committed p' is) h continue =
      elim (Bool-cases (length (next_events ledger p) == 0)) [
        | inl none_left ↦ rw (after_round, none_left) (_, refl)
        | inr some_left ↦
            rw (after_round, some_left)
              (continue (total + length (next_events ledger p)) p'
                (ground (arith, committed-Progress p p' is)))
      ]

  rebuild_loop-Ends :
      (fuel total : ℕ) (p : ProjectionsDb)
      → left_behind ledger p < fuel
      → Ends (rebuild_loop big_int fuel total ledger p)
  unfolding rebuild_loop
  rebuild_loop-Ends zero total p h = absurd (omega arith)
  rebuild_loop-Ends (suc fuel) total p h =
      after_round-Ends fuel total p (apply_next_batch big_int batch_limit ledger p)
        (apply_next_batch-Batch p) h (rebuild_loop-Ends fuel)

  -- `rebuildAll` comes to an end, whatever the two databases hold: as many rounds as the ledger has
  -- rows and one more return or throw.
  pub rebuild_all-Ends :
      (p : ProjectionsDb) → Ends (rebuild_all big_int (length ledger.ledger_events + 1) ledger p)
  unfolding rebuild_all
  rebuild_all-Ends p =
      rebuild_loop-Ends (length ledger.ledger_events + 1) 0 empty_projections
        (omega (arith, left_behind_le ledger empty_projections))
