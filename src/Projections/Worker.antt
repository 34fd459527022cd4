-- ===== src/Projections/Worker.antt =====
-- `applyNextBatch` and `rebuildAll` of server/src/projections/worker.ts. The ledger's database is
-- only read.
use vorcaro_ledger.Prelude.{
  ℕ, zero, suc, ◌+◌, Bool, true, false, Option, none, some, List, [], ◌∷◌, Text, codes, text_eq,
  length, find, filter_by, take, ltb, leb, ◌==◌,
}
use vorcaro_ledger.Prelude.Int.{ℤ}
use vorcaro_ledger.Prelude.Sort.{sort}
use vorcaro_ledger.Protocol.Result.{Result, ok, err, ◌>>=◌}
use vorcaro_ledger.Database.Tables.{Db, LedgerEventRow}
use vorcaro_ledger.Projections.Tables.{ProjectionsDb, empty_projections}
use vorcaro_ledger.Projections.Statements.{LedgerEvent, apply_events, sync_open_conflicts, set_meta}
use vorcaro_ledger.Projections.Cash.{rebuild_cash_position}

pub record ProjectionRunResult : Type 0 where
  pub from_sequence : ℕ
  pub to_sequence : ℕ
  pub applied_events : ℕ

abbrev pub selected_event : LedgerEventRow → ℕ → LedgerEvent
selected_event r n = record {
  id = r.id;
  server_sequence = n;
  event_type = r.event_type;
  object_type = r.object_type;
  object_id = r.object_id;
  policy_metadata = r.policy_metadata;
  status = r.status;
  server_timestamp = r.server_timestamp;
}

-- The rows with a number: a NULL is not greater than any.
unfoldable pub numbered_events : List LedgerEventRow → List LedgerEvent
numbered_events [] = []
numbered_events (r ∷ rs) =
    let rest = numbered_events rs in
    elim r.server_sequence [ none ↦ rest | some n ↦ selected_event r n ∷ rest ]

abbrev pub event_le : LedgerEvent → LedgerEvent → Bool
event_le x y = leb x.server_sequence y.server_sequence

abbrev pub is_after : ℕ → LedgerEvent → Bool
is_after sequence e = ltb sequence e.server_sequence

-- `WHERE server_sequence > ? ORDER BY server_sequence ASC LIMIT ?`
unfoldable pub read_ledger_events_after : ℕ → ℕ → Db → List LedgerEvent
read_ledger_events_after sequence limit ledger =
    take limit
      (sort event_le (filter_by (is_after sequence) (numbered_events ledger.ledger_events)))

abbrev pub last_applied_key : Text
last_applied_key = codes "last_applied_sequence"

unfoldable pub last_applied_sequence : ProjectionsDb → ℕ
last_applied_sequence p = elim (find (λ m. text_eq m.key last_applied_key) p.proj_meta) [
  | none ↦ 0
  | some row ↦ row.value
]

-- The sequence of the last event, or where the batch started.
unfoldable pub to_sequence : ℕ → List LedgerEvent → ℕ
to_sequence from_sequence [] = from_sequence
to_sequence from_sequence (event ∷ events) = to_sequence event.server_sequence events

-- The statements behind the events of a batch.
unfoldable pub finish_batch : Db → ℕ → ProjectionsDb → Result ProjectionsDb
finish_batch ledger sequence p = do
  synced ← sync_open_conflicts ledger p
  rebuilt ← rebuild_cash_position synced
  ok (set_meta last_applied_key sequence rebuilt)

abbrev pub batch_limit : ℕ
batch_limit = 500

-- The rest of a round of `rebuildAll`, with the rounds behind it.
unfoldable pub after_round :
    ℕ
    → (ℕ → ProjectionsDb → Option (Result ProjectionRunResult × ProjectionsDb))
    → Result ProjectionRunResult × ProjectionsDb
    → Option (Result ProjectionRunResult × ProjectionsDb)
after_round total_applied continue (err e, p) = some (err e, p)
after_round total_applied continue (ok batch, p) = elim (batch.applied_events == 0) [
  | true ↦ some (
    ok (record {
      from_sequence = 0;
      to_sequence = batch.to_sequence;
      applied_events = total_applied + batch.applied_events;
    }),
    p,
  )
  | false ↦ continue (total_applied + batch.applied_events) p
]

module _ (big_int : Text → Result ℤ) where
  unfoldable pub batch_statements : Db → List LedgerEvent → ℕ → ProjectionsDb → Result ProjectionsDb
  batch_statements ledger events sequence p =
      apply_events big_int events p >>= finish_batch ledger sequence

  -- The transaction of a batch: a throw rolls it back.
  unfoldable pub run_batch :
      Db → ℕ → List LedgerEvent → ProjectionsDb → Result ProjectionRunResult × ProjectionsDb
  run_batch ledger from_sequence events p =
      let sequence = to_sequence from_sequence events in
      elim (batch_statements ledger events sequence p) [
        | ok p' ↦ (
          ok (record {
            from_sequence = from_sequence;
            to_sequence = sequence;
            applied_events = length events;
          }),
          p',
        )
        | err e ↦ (err e, p)
      ]

  unfoldable pub apply_next_batch :
      ℕ → Db → ProjectionsDb → Result ProjectionRunResult × ProjectionsDb
  apply_next_batch limit ledger p =
      let from_sequence = last_applied_sequence p in
      run_batch ledger from_sequence (read_ledger_events_after from_sequence limit ledger) p

  -- The `while (true)` of `rebuildAll`, with as many rounds as the fuel; `none` where it runs out.
  unfoldable pub rebuild_loop :
      ℕ → ℕ → Db → ProjectionsDb → Option (Result ProjectionRunResult × ProjectionsDb)
  rebuild_loop zero total_applied ledger p = none
  rebuild_loop (suc fuel) total_applied ledger p =
      after_round total_applied (λ total p. rebuild_loop fuel total ledger p)
        (apply_next_batch batch_limit ledger p)

  -- Every table is emptied first.
  unfoldable pub rebuild_all :
      ℕ → Db → ProjectionsDb → Option (Result ProjectionRunResult × ProjectionsDb)
  rebuild_all fuel ledger p = rebuild_loop fuel 0 ledger empty_projections
