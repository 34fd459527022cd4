-- ===== src/Projections/Loop.antt =====
-- The loop of `rebuildAll` of server/src/projections/worker.ts, by its rounds.
use vorcaro_ledger.Prelude.{
  ℕ, zero, suc, ◌+◌, ◌<◌, false, Option, some, List, [], Text, filter_by, take, drop, length, ◌==◌,
  ◌≡◌, refl, sym, ap, ◌∙◌, arith, inl, inr, Bool-cases,
}
use vorcaro_ledger.Prelude.Int.{ℤ}
use vorcaro_ledger.Protocol.Result.{Result, ok}
use vorcaro_ledger.Database.Tables.{Db}
use vorcaro_ledger.Projections.Tables.{ProjectionsDb, AccountRow, OpenConflictRow, CashPositionRow}
use vorcaro_ledger.Projections.Statements.{open_conflicts}
use vorcaro_ledger.Projections.Worker.{
  ProjectionRunResult, is_after, last_applied_sequence, to_sequence, apply_next_batch, batch_limit,
  after_round, rebuild_loop,
}
use vorcaro_ledger.Projections.Frame.{map_ok, apply_all_accounts, mark_all, insert_all}
use vorcaro_ledger.Projections.Totals.{AllZero}
use vorcaro_ledger.Projections.Accounts.{
  strip, strip-strip, strip-mark_all, strip-apply_all_accounts, AllZero-strip, AllZero-mark_all,
  AllZero-apply_all_accounts,
}
use vorcaro_ledger.Projections.Order.{IsAscending, read-rest, take-drop, to_sequence-append}
use vorcaro_ledger.Projections.Progress.{all_events}
use vorcaro_ledger.Projections.Batches.{
  IsClean, built, cash_of, marked_accounts, built-IsClean, last_applied_sequence-built,
}
use vorcaro_ledger.Projections.Rounds.{
  rest_of, run_over, take-nil, after_round-more, batch_statements-built, apply_next_batch-run_batch,
  run_batch-ok, apply_take, length-drop, fewer_left, same_accounts,
}

module _ (big_int : Text → Result ℤ) (ledger : Db) (rows : List OpenConflictRow)
    (inserted : insert_all (open_conflicts ledger) [] ≡ ok rows)
    (ascending : IsAscending (all_events ledger)) where
  -- What the loop returns where these accounts are left and so many events were applied.
  abbrev answer :
      ℕ
      → ℕ
      → List AccountRow
      → List CashPositionRow
      → Option (Result ProjectionRunResult × ProjectionsDb)
  answer sequence applied ys cash = some (
    ok (record { from_sequence = 0; to_sequence = sequence; applied_events = applied }),
    built (mark_all (open_conflicts ledger) ys) rows cash sequence,
  )

  abbrev Returns : ℕ → ℕ → ProjectionsDb → List AccountRow → Type 0
  Returns fuel total p ys =
      (cash : List CashPositionRow) × (cash_of (mark_all (open_conflicts ledger) ys) ≡ ok cash)
      × (rebuild_loop big_int fuel total ledger p
          ≡ answer (to_sequence (last_applied_sequence p) (rest_of ledger p))
              (total + length (rest_of ledger p)) ys cash)

  -- The last round, which reads no event.
  last_round :
      (fuel total : ℕ) (p : ProjectionsDb) (zs ys : List AccountRow) (cash : List CashPositionRow)
      → rest_of ledger p ≡ []
      → strip zs ≡ ys
      → cash_of (marked_accounts ledger zs) ≡ ok cash
      → apply_next_batch big_int batch_limit ledger p ≡ (
        ok (run_over (last_applied_sequence p) (take batch_limit (rest_of ledger p))),
        built
            (marked_accounts ledger zs)
            rows
            cash
            (to_sequence (last_applied_sequence p) (take batch_limit (rest_of ledger p))),
      )
      → Returns (suc fuel) total p ys
  unfolding rebuild_loop after_round to_sequence take
  last_round fuel total p zs ys cash nothing same counted round =
      (cash, rw (← same) counted, rw (round, nothing, ← same) refl)

  -- A round behind which events are left.
  next_round :
      (fuel total : ℕ) (p q : ProjectionsDb) (ys : List AccountRow)
      → last_applied_sequence q
        ≡ to_sequence (last_applied_sequence p) (take batch_limit (rest_of ledger p))
      → rest_of ledger q ≡ drop batch_limit (rest_of ledger p)
      → (length (take batch_limit (rest_of ledger p)) == 0) ≡ false
      → apply_next_batch big_int batch_limit ledger p
        ≡ (ok (run_over (last_applied_sequence p) (take batch_limit (rest_of ledger p))), q)
      → Returns fuel (total + length (take batch_limit (rest_of ledger p))) q ys
      → Returns (suc fuel) total p ys
  unfolding rebuild_loop after_round
  next_round fuel total p q ys mark left some_read round (cash, counted, returns) =
      let es = take batch_limit (rest_of ledger p) in
      let n = last_applied_sequence p in
      let sequences : to_sequence (last_applied_sequence q) (rest_of ledger q)
          ≡ to_sequence n (rest_of ledger p) =
        ap (λ m. to_sequence m (rest_of ledger q)) mark
        ∙ ap (to_sequence (to_sequence n es)) left
        ∙ sym (to_sequence-append n es (drop batch_limit (rest_of ledger p)))
        ∙ ap (to_sequence n) (take-drop batch_limit (rest_of ledger p)) in
      let counts : total + length es + length (rest_of ledger q)
          ≡ total + length (rest_of ledger p) =
        rw left (omega (arith, length-drop batch_limit (rest_of ledger p))) in
      (
        cash,
        counted,
        ap (after_round total (λ k p'. rebuild_loop big_int fuel k ledger p')) round
            ∙ after_round-more total (λ k p'. rebuild_loop big_int fuel k ledger p') (run_over n es)
                q some_read
            ∙ returns
            ∙ ap (λ m. answer m (total + length es + length (rest_of ledger q)) ys cash) sequences
            ∙ ap (λ k. answer (to_sequence n (rest_of ledger p)) k ys cash) counts,
      )

  pub rebuild_loop-Returns :
      (fuel total : ℕ) (p : ProjectionsDb) (ys : List AccountRow)
      → IsClean p
      → AllZero p.proj_accounts
      → length (rest_of ledger p) < fuel
      → map_ok strip (apply_all_accounts big_int (rest_of ledger p) p.proj_accounts) ≡ ok ys
      → Returns fuel total p ys
  unfolding apply_all_accounts drop
  rebuild_loop-Returns zero total p ys clean zeros enough h = absurd (omega arith)
  rebuild_loop-Returns (suc fuel) total p ys clean zeros enough h =
      let (zs, first, rest) =
        apply_take big_int ledger batch_limit (rest_of ledger p) p.proj_accounts ys h in
      let n = last_applied_sequence p in
      let es = take batch_limit (rest_of ledger p) in
      let (cash, counted, done) =
        batch_statements-built big_int ledger es (to_sequence n es) p rows zs clean zeros inserted
          first in
      let q = built (marked_accounts ledger zs) rows cash (to_sequence n es) in
      let round =
        apply_next_batch-run_batch big_int ledger batch_limit p
        ∙ run_batch-ok big_int ledger n es p q done in
      let mark =
        last_applied_sequence-built (marked_accounts ledger zs) rows cash (to_sequence n es) in
      let left : rest_of ledger q ≡ drop batch_limit (rest_of ledger p) =
        ap (λ m. filter_by (is_after m) (all_events ledger)) mark
        ∙ read-rest batch_limit n (all_events ledger) ascending in
      elim (Bool-cases (length es == 0)) [
        | inl none_left ↦
            let nothing = take-nil 499 (rest_of ledger p) (ground (arith, none_left)) in
            last_round fuel total p zs ys cash nothing
              (same_accounts big_int ledger 499 (rest_of ledger p) zs ys nothing rest) counted round
        | inr some_left ↦ next_round fuel total p q ys mark left some_left round (
            rebuild_loop-Returns fuel (total + length es) q ys
              (built-IsClean (marked_accounts ledger zs) rows cash (to_sequence n es))
              (AllZero-mark_all (open_conflicts ledger) (strip zs) (
                AllZero-strip zs
                  (AllZero-apply_all_accounts big_int es p.proj_accounts zs zeros first)))
              (rw left (fewer_left batch_limit fuel (rest_of ledger p) some_left enough))
              (rw left (
                strip-apply_all_accounts big_int (drop batch_limit (rest_of ledger p))
                  (marked_accounts ledger zs) zs
                  (strip-mark_all (open_conflicts ledger) (strip zs) ∙ strip-strip zs)
                ∙ rest)))
      ]
