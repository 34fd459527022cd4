-- ===== src/Projections/Coverage.antt =====
-- No batch of server/src/projections/worker.ts skips an event or reads one again.
use vorcaro_ledger.Prelude.{ℕ, ◌++◌, Text, filter_by, take, length, ◌≡◌, sym, ap, ◌∙◌}
use vorcaro_ledger.Prelude.Int.{ℤ}
use vorcaro_ledger.Protocol.Result.{Result, ok}
use vorcaro_ledger.Protocol.Crypto.{Host}
use vorcaro_ledger.Database.Tables.{Db}
use vorcaro_ledger.Ledger.Chain.{IsChain}
use vorcaro_ledger.Projections.Tables.{ProjectionsDb}
use vorcaro_ledger.Projections.Worker.{
  ProjectionRunResult, read_ledger_events_after, is_after, last_applied_sequence, to_sequence,
  apply_next_batch,
}
use vorcaro_ledger.Projections.Order.{read-rest, take-drop, sort-numbered_events-IsAscending}
use vorcaro_ledger.Projections.Progress.{
  all_events, read_ledger_events_after-all_events, batch_statements-last_applied_sequence,
}
use vorcaro_ledger.Projections.Rounds.{rest_of, apply_next_batch-run_batch, run_batch-inverse}

module _ (big_int : Text → Result ℤ) (host : Host) (limit : ℕ) (ledger : Db) (p p' : ProjectionsDb)
    (run : ProjectionRunResult) where
  -- Of a ledger that is a hash chain, the events behind the mark of the read model are, in sequence
  -- order, those that a batch that commits reads, followed by those behind the mark it sets; it
  -- reports how many it read, and the mark.
  pub apply_next_batch-rest :
      IsChain host ledger.ledger_events
      → apply_next_batch big_int limit ledger p ≡ (ok run, p')
      → (rest_of ledger p
          ≡ read_ledger_events_after (last_applied_sequence p) limit ledger ++ rest_of ledger p')
        × (run.applied_events
            ≡ length (read_ledger_events_after (last_applied_sequence p) limit ledger))
        × (run.to_sequence ≡ last_applied_sequence p')
  apply_next_batch-rest chain h =
      let n = last_applied_sequence p in
      let es = take limit (rest_of ledger p) in
      let (committed, ran) =
        run_batch-inverse big_int ledger n es p p' run
          (sym (apply_next_batch-run_batch big_int ledger limit p) ∙ h) in
      let mark =
        batch_statements-last_applied_sequence big_int ledger es (to_sequence n es) p p'
          committed in
      let left =
        ap (λ m. filter_by (is_after m) (all_events ledger)) mark
        ∙ read-rest limit n (all_events ledger)
            (sort-numbered_events-IsAscending host ledger.ledger_events chain) in
      let read = read_ledger_events_after-all_events ledger n limit in
      (
        sym (take-drop limit (rest_of ledger p))
            ∙ ap (λ xs. es ++ xs) (sym left)
            ∙ ap (λ xs. xs ++ rest_of ledger p') (sym read),
        ap (λ (r : ProjectionRunResult). r.applied_events) ran ∙ ap length (sym read),
        ap (λ (r : ProjectionRunResult). r.to_sequence) ran ∙ sym mark,
      )
