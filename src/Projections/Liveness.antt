-- ===== src/Projections/Liveness.antt =====
-- `rebuildAll` of server/src/projections/worker.ts returns on what the appender writes.
use vorcaro_ledger.Prelude.{
  ℕ, zero, suc, ◌+◌, Bool, false, Option, none, some, List, [], ◌∷◌, Text, text_eq, text_eq_iff,
  any, filter_by, filter_by-All, take, length, All, ◌≡◌, refl, ap, ◌∙◌, arith, inl, inr, Bool-cases,
  leb,
}
use vorcaro_ledger.Prelude.Int.{ℤ, pos}
use vorcaro_ledger.Prelude.Sort.{sort-All, sort-Apart}
use vorcaro_ledger.Protocol.Decimal.{decimal}
use vorcaro_ledger.Protocol.Crypto.{Host}
use vorcaro_ledger.Protocol.Result.{Result, Thrown, ok, err, Result-cases}
use vorcaro_ledger.Protocol.Envelope.{PolicyMetadata}
use vorcaro_ledger.Database.Tables.{Db, LedgerEventRow, ConflictRow, is_open}
use vorcaro_ledger.Ledger.Rows.{stringify_policy_metadata, row_of}
use vorcaro_ledger.Ledger.Chain.{IsChain, tip, link_sequence}
use vorcaro_ledger.Projections.Tables.{
  ProjectionsDb, AccountRow, OpenConflictRow, empty_projections,
}
use vorcaro_ledger.Projections.Statements.{
  LedgerEvent, ParsedMetadata, parse_policy_metadata, open_conflicts, open_conflict_row,
}
use vorcaro_ledger.Projections.Worker.{
  ProjectionRunResult, selected_event, numbered_events, event_le, is_after, last_applied_sequence,
  to_sequence, rebuild_all,
}
use vorcaro_ledger.Projections.Frame.{apply_accounts, apply_all_accounts, insert_all}
use vorcaro_ledger.Projections.Progress.{all_events}
use vorcaro_ledger.Projections.Batches.{empty_projections-IsClean, built, marked_accounts}
use vorcaro_ledger.Projections.Rounds.{
  rest_of, run_over, batch_statements-built, apply_next_batch-run_batch, run_batch-ok,
}
use vorcaro_ledger.Projections.Equivalence.{rebuild_all-apply_next_batch}

-- `BigInt` reads the decimal text of a number.
abbrev pub ReadsDecimal : (Text → Result ℤ) → Type 0
ReadsDecimal big_int = (n : ℕ) → big_int (decimal n) ≡ ok (pos n)

module _ (big_int : Text → Result ℤ) where
  -- The metadata of an event can be parsed.
  abbrev IsReadable : LedgerEvent → Type 0
  IsReadable e = (m : ParsedMetadata) × (parse_policy_metadata big_int e.policy_metadata ≡ ok m)

  apply_accounts-IsReadable :
      (e : LedgerEvent) (xs : List AccountRow)
      → IsReadable e
      → (ys : List AccountRow) × (apply_accounts big_int e xs ≡ ok ys)
  unfolding apply_accounts
  apply_accounts-IsReadable e xs (m, parsed) = elim (Result-cases (apply_accounts big_int e xs)) [
    | inl returned ↦ returned
    | inr (thrown, threw) ↦ absurd (ground (arith, parsed, threw))
  ]

  pub apply_all_accounts-IsReadable :
      (es : List LedgerEvent) (xs : List AccountRow)
      → All IsReadable es
      → (ys : List AccountRow) × (apply_all_accounts big_int es xs ≡ ok ys)
  unfolding apply_all_accounts
  apply_all_accounts-IsReadable [] xs h = (xs, refl)
  apply_all_accounts-IsReadable (e ∷ es) xs h =
      let (ys, applied) = apply_accounts-IsReadable e xs h.0 in
      rw applied (apply_all_accounts-IsReadable es ys h.1)

  stored-IsReadable :
      (m : PolicyMetadata) (e : LedgerEvent)
      → ReadsDecimal big_int
      → e.policy_metadata ≡ stringify_policy_metadata m
      → IsReadable e
  unfolding parse_policy_metadata stringify_policy_metadata
  stored-IsReadable m e reads is =
      elim (Result-cases (parse_policy_metadata big_int e.policy_metadata)) [
        | inl returned ↦ returned
        | inr (thrown, threw) ↦ absurd (by_rate m.local_rate refl thrown threw)
      ]
    where
      by_rate :
          (rate : Option ℕ)
          → m.local_rate ≡ rate
          → (thrown : Thrown) → parse_policy_metadata big_int e.policy_metadata ≡ err thrown
          → ⊥
      by_rate none none_is thrown threw = ground (arith, is, none_is, threw)
      by_rate (some n) some_is thrown threw = ground (arith, is, some_is, threw, reads n)

  numbered_events-IsReadable :
      (host : Host) (rows : List LedgerEventRow)
      → ReadsDecimal big_int
      → IsChain host rows
      → All IsReadable (numbered_events rows)
  unfolding numbered_events row_of
  numbered_events-IsReadable host [] reads chain = tt
  numbered_events-IsReadable host (r ∷ rs) reads chain =
      rw (link_sequence host (tip rs) (length rs + 1) r chain.0) (
        stored-IsReadable chain.0.input.event.policy_metadata (selected_event r (length rs + 1))
            reads (ap (λ (q : LedgerEventRow). q.policy_metadata) chain.0.row_eq),
        numbered_events-IsReadable host rs reads chain.1,
      )

-- The ids of conflicts differ: PRIMARY KEY (id).
abbrev Differ : ConflictRow → ConflictRow → Type 0
Differ c d = text_eq c.id d.id ≡ false

flip-Differ : (c d : ConflictRow) → Differ c d → Differ d c
flip-Differ c d h = ground (arith, text_eq_iff c.id d.id, text_eq_iff d.id c.id)

abbrev pub HasUniqueIds : List ConflictRow → Type 0
HasUniqueIds [] = Unit
HasUniqueIds (c ∷ cs) = All (Differ c) cs × HasUniqueIds cs

filter_by-HasUniqueIds :
    (p : ConflictRow → Bool) (cs : List ConflictRow)
    → HasUniqueIds cs
    → HasUniqueIds (filter_by p cs)
unfolding filter_by
filter_by-HasUniqueIds p [] h = tt
filter_by-HasUniqueIds p (c ∷ cs) h = elim (Bool-cases (p c)) [
  | inl passes ↦ rw passes (filter_by-All (Differ c) p cs h.0, filter_by-HasUniqueIds p cs h.1)
  | inr fails ↦ rw fails (filter_by-HasUniqueIds p cs h.1)
]

abbrev New : List OpenConflictRow → ConflictRow → Type 0
New rows c = any (λ (r : OpenConflictRow). text_eq r.conflict_id c.id) rows ≡ false

New-cons :
    (c : ConflictRow) (rows : List OpenConflictRow) (cs : List ConflictRow)
    → All (Differ c) cs
    → All (New rows) cs
    → All (New (open_conflict_row c ∷ rows)) cs
unfolding any
New-cons c rows [] h k = tt
New-cons c rows (d ∷ ds) h k = (ground (arith, h.0, k.0), New-cons c rows ds h.1 k.1)

New-nil : (cs : List ConflictRow) → All (New []) cs
unfolding any
New-nil [] = tt
New-nil (c ∷ cs) = (refl, New-nil cs)

pub insert_all-HasUniqueIds :
    (cs : List ConflictRow) (rows : List OpenConflictRow)
    → HasUniqueIds cs
    → All (New rows) cs
    → (rows' : List OpenConflictRow) × (insert_all cs rows ≡ ok rows')
unfolding insert_all
insert_all-HasUniqueIds [] rows h k = (rows, refl)
insert_all-HasUniqueIds (c ∷ cs) rows h k =
    rw (k.0)
      (insert_all-HasUniqueIds cs (open_conflict_row c ∷ rows) h.1 (New-cons c rows cs h.0 k.1))

take-All : (P : LedgerEvent → Type 0) (k : ℕ) (es : List LedgerEvent) → All P es → All P (take k es)
unfolding take
take-All P zero es h = tt
take-All P (suc k) [] h = tt
take-All P (suc k) (e ∷ es) h = (h.0, take-All P k es h.1)

-- On a ledger that is a hash chain, with conflicts of different ids, `rebuildAll` returns without
-- an error, whatever the read model held; `BigInt` reads decimal texts.
pub rebuild_all_returns :
    (big_int : Text → Result ℤ) (host : Host) (ledger : Db) (p : ProjectionsDb)
    → ReadsDecimal big_int
    → IsChain host ledger.ledger_events
    → HasUniqueIds ledger.conflicts
    → (run : ProjectionRunResult) × (p' : ProjectionsDb) × (rebuild_all big_int
          (length ledger.ledger_events + 1)
          ledger
          p
        ≡ some (ok run, p'))
unfolding open_conflicts
rebuild_all_returns big_int host ledger p reads chain unique =
    let k = length ledger.ledger_events in
    let es = take k (rest_of ledger empty_projections) in
    let n = last_applied_sequence empty_projections in
    let readable = take-All (IsReadable big_int) k (rest_of ledger empty_projections) (
      filter_by-All (IsReadable big_int) (is_after n) (all_events ledger) (
        sort-All event_le (IsReadable big_int) (numbered_events ledger.ledger_events)
          (numbered_events-IsReadable big_int host ledger.ledger_events reads chain))) in
    let (xs, applied) = apply_all_accounts-IsReadable big_int es [] readable in
    let (rows, inserted) =
      insert_all-HasUniqueIds (open_conflicts ledger) []
        (sort-Apart (λ x y. leb x.detected_at_sequence y.detected_at_sequence) Differ flip-Differ
          (filter_by (λ c. is_open c.status) ledger.conflicts)
          (filter_by-HasUniqueIds (λ c. is_open c.status) ledger.conflicts unique))
        (New-nil (open_conflicts ledger)) in
    let (cash, counted, done) =
      batch_statements-built big_int ledger es (to_sequence n es) empty_projections rows xs
        empty_projections-IsClean tt inserted applied in
    let p' = built (marked_accounts ledger xs) rows cash (to_sequence n es) in
    let run = run_over n es in
    (
      run,
      p',
      rebuild_all-apply_next_batch big_int ledger host p p' run chain (
          apply_next_batch-run_batch big_int ledger k empty_projections
          ∙ run_batch-ok big_int ledger n es empty_projections p' done),
    )
