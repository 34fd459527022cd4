-- ===== src/Projections/Progress.antt =====
-- `rebuildAll` of server/src/projections/worker.ts returns or throws: each batch that applies an
-- event leaves fewer events behind it.
use vorcaro_ledger.Prelude.{
  ℕ, zero, suc, ◌≤◌, ◌<◌, Bool, true, some, List, [], ◌∷◌, Text, length, any, filter_by, take, ◌==◌,
  if◌then◌else◌, ◌≡◌, refl, ap, inl, inr, arith, Bool-cases, text_eq, text_eq_refl, find,
  update_where, ◌⊎◌,
}
use vorcaro_ledger.Prelude.Int.{ℤ}
use vorcaro_ledger.Prelude.Sort.{insert, sort}
use vorcaro_ledger.Protocol.Result.{Result, ok, bind_ok}
use vorcaro_ledger.Database.Tables.{Db, LedgerEventRow}
use vorcaro_ledger.Projections.Tables.{ProjectionsDb, MetaRow}
use vorcaro_ledger.Projections.Statements.{LedgerEvent, apply_events, set_meta, sync_open_conflicts}
use vorcaro_ledger.Projections.Cash.{rebuild_cash_position}
use vorcaro_ledger.Projections.Worker.{
  numbered_events, event_le, is_after, read_ledger_events_after, last_applied_key,
  last_applied_sequence, to_sequence, finish_batch, batch_statements,
}

-- Selecting the later events and sorting them commute.
filter_by-insert :
    (n : ℕ) (e : LedgerEvent) (es : List LedgerEvent)
    → filter_by (is_after n) (insert event_le e es) ≡ (
        if is_after n e
        then insert event_le e (filter_by (is_after n) es)
        else filter_by (is_after n) es)
unfolding filter_by insert
filter_by-insert n e [] = ground arith
filter_by-insert n e (x ∷ xs) = ground (arith, filter_by-insert n e xs)

pub filter_by-sort :
    (n : ℕ) (es : List LedgerEvent)
    → sort event_le (filter_by (is_after n) es) ≡ filter_by (is_after n) (sort event_le es)
unfolding filter_by sort
filter_by-sort n [] = refl
filter_by-sort n (e ∷ es) =
    ground (arith, filter_by-insert n e (sort event_le es), filter_by-sort n es)

length-insert :
    (e : LedgerEvent) (es : List LedgerEvent) → length (insert event_le e es) ≡ suc (length es)
unfolding insert
length-insert e [] = refl
length-insert e (x ∷ xs) = ground (arith, length-insert e xs)

length-sort : (es : List LedgerEvent) → length (sort event_le es) ≡ length es
unfolding sort
length-sort [] = refl
length-sort (e ∷ es) = ground (arith, length-insert e (sort event_le es), length-sort es)

length-numbered_events : (rows : List LedgerEventRow) → length (numbered_events rows) ≤ length rows
unfolding numbered_events
length-numbered_events [] = ground arith
length-numbered_events (r ∷ rs) = ground (arith, length-numbered_events rs)

-- How many events stand behind a sequence.
abbrev pub left_after : ℕ → List LedgerEvent → ℕ
left_after n es = length (filter_by (is_after n) es)

left_after_le : (n : ℕ) (es : List LedgerEvent) → left_after n es ≤ length es
unfolding filter_by
left_after_le n [] = ground arith
left_after_le n (e ∷ es) = ground (arith, left_after_le n es)

left_after_mono : (m n : ℕ) (es : List LedgerEvent) → m ≤ n → left_after n es ≤ left_after m es
unfolding filter_by
left_after_mono m n [] h = ground arith
left_after_mono m n (e ∷ es) h = ground (arith, left_after_mono m n es h)

abbrev is_at : ℕ → LedgerEvent → Bool
is_at n e = e.server_sequence == n

-- A later sequence that some event has leaves that event out.
left_after_lt :
    (n m : ℕ) (es : List LedgerEvent)
    → any (is_at m) (filter_by (is_after n) es) ≡ true
    → (n < m) × (left_after m es < left_after n es)
unfolding filter_by any
left_after_lt n m [] h = ground arith
left_after_lt n m (e ∷ es) h = elim (Bool-cases (is_at m e)) [
  | inl here ↦ ground (arith, left_after_mono n m es, left_after_lt n m es)
  | inr there ↦ ground (arith, left_after_lt n m es)
]

to_sequence-any :
    (k n : ℕ) (e : LedgerEvent) (es : List LedgerEvent)
    → any (is_at (to_sequence n (take (suc k) (e ∷ es)))) (e ∷ es) ≡ true
unfolding to_sequence take any
to_sequence-any zero n e es = ground arith
to_sequence-any (suc k) n e [] = ground arith
to_sequence-any (suc k) n e (x ∷ xs) = ground (arith, to_sequence-any k e.server_sequence x xs)

-- The mark that is read back is the one written.
find-upsert :
    (ms : List MetaRow) (n : ℕ)
    → any (λ (m : MetaRow). text_eq m.key last_applied_key) ms ≡ true
    → (row : MetaRow) × (find
          (λ m. text_eq m.key last_applied_key)
          (update_where (λ m. text_eq m.key last_applied_key) (λ m. record m { value = n }) ms)
        ≡ some row)
      × (row.value ≡ n)
unfolding any find update_where
find-upsert [] n h = ground arith
find-upsert (m ∷ ms) n h = elim (Bool-cases (text_eq m.key last_applied_key)) [
  | inl here ↦ (record m { value = n }, ground arith, refl)
  | inr there ↦ ground (arith, find-upsert ms n)
]

last_applied_sequence-set_meta :
    (n : ℕ) (p : ProjectionsDb) → last_applied_sequence (set_meta last_applied_key n p) ≡ n
unfolding last_applied_sequence set_meta find
last_applied_sequence-set_meta n p =
    elim (Bool-cases (any (λ (m : MetaRow). text_eq m.key last_applied_key) p.proj_meta)) [
      | inl seen ↦ let (row, found, value) = find-upsert p.proj_meta n seen in ground arith
      | inr new ↦ ground (arith, text_eq_refl last_applied_key)
    ]

module _ (ledger : Db) where
  pub finish_batch-last_applied_sequence :
      (n : ℕ) (p p' : ProjectionsDb)
      → finish_batch ledger n p ≡ ok p'
      → last_applied_sequence p' ≡ n
  unfolding finish_batch
  finish_batch-last_applied_sequence n p p' h =
      let (synced, is, rest) = bind_ok (sync_open_conflicts ledger p) _ p' h in
      let (rebuilt, was, done) = bind_ok (rebuild_cash_position synced) _ p' rest in
      ground (arith, last_applied_sequence-set_meta n rebuilt)

  -- The events that the worker reads, in order.
  abbrev pub all_events : List LedgerEvent
  all_events = sort event_le (numbered_events ledger.ledger_events)

  pub left_after_all : (n : ℕ) → left_after n all_events ≤ length ledger.ledger_events
  left_after_all n = omega (
    arith,
    left_after_le n all_events,
    length-sort (numbered_events ledger.ledger_events),
    length-numbered_events ledger.ledger_events,
  )

  pub read_ledger_events_after-all_events :
      (n limit : ℕ)
      → read_ledger_events_after n limit ledger ≡ take limit (filter_by (is_after n) all_events)
  unfolding read_ledger_events_after
  read_ledger_events_after-all_events n limit =
      ap (take limit) (filter_by-sort n (numbered_events ledger.ledger_events))

  -- Where a batch reads an event, fewer are left behind its last one.
  pub read-Progress :
      (n k : ℕ)
      → (length (read_ledger_events_after n (suc k) ledger) ≡ 0)
        ⊎ (left_after (to_sequence n (read_ledger_events_after n (suc k) ledger)) all_events
            < left_after n all_events)
  unfolding take
  read-Progress n k =
      rw (read_ledger_events_after-all_events n (suc k))
        (by_events (filter_by (is_after n) all_events) refl)
    where
      by_events :
          (es : List LedgerEvent)
          → filter_by (is_after n) all_events ≡ es
          → (length (take (suc k) es) ≡ 0)
            ⊎ (left_after (to_sequence n (take (suc k) es)) all_events < left_after n all_events)
      by_events [] is = inl refl
      by_events (e ∷ es) is =
          inr
            (left_after_lt n (to_sequence n (take (suc k) (e ∷ es))) all_events
              (rw is (to_sequence-any k n e es))).1

module _ (big_int : Text → Result ℤ) (ledger : Db) where
  pub batch_statements-last_applied_sequence :
      (events : List LedgerEvent) (n : ℕ) (p p' : ProjectionsDb)
      → batch_statements big_int ledger events n p ≡ ok p'
      → last_applied_sequence p' ≡ n
  unfolding batch_statements
  batch_statements-last_applied_sequence events n p p' h =
      let (q, applied, rest) =
        bind_ok (apply_events big_int events p) (finish_batch ledger n) p' h in
      finish_batch-last_applied_sequence ledger n q p' rest
