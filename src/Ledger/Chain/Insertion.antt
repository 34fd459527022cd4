-- ===== src/Ledger/Chain/Insertion.antt =====
-- A row that other services write with `insertLedgerEvent` of server/src/ledger/appender.ts, or with
-- the same statement, continues the hash chain.
use vorcaro_ledger.Prelude.{◌∷◌, ◌≡◌, ◌⊎◌, inl, inr, refl, arith}
use vorcaro_ledger.Protocol.Crypto.{Host, compute_ledger_hash}
use vorcaro_ledger.Database.Tables.{Db}
use vorcaro_ledger.Database.Action.{◌>>=◌}
use vorcaro_ledger.Database.Select.{next_server_sequence, previous_ledger_hash, to_sql_integer}
use vorcaro_ledger.Database.Insert.{insert_event}
use vorcaro_ledger.Ledger.Rows.{InsertInput, row_of}
use vorcaro_ledger.Ledger.Append.{insert_ledger_event}
use vorcaro_ledger.Ledger.Chain.{
  IsChain, next_server_sequence-IsChain, previous_ledger_hash-IsChain,
}

-- The values of the next row of a ledger.
pub record Continues (host : Host) (db : Db) (input : InsertInput) : Type 0 where
  pub sequence : input.server_sequence ≡ next_server_sequence db
  pub previous_eq : input.previous_ledger_hash ≡ previous_ledger_hash db
  pub resulting_eq :
      input.resulting_ledger_hash
      ≡ compute_ledger_hash host (previous_ledger_hash db) (next_server_sequence db) input.event

module _ (host : Host) (input : InsertInput) (db : Db) where
  inserted :
      ((insert_ledger_event host input db).1.ledger_events ≡ db.ledger_events)
      ⊎ ((insert_ledger_event host input db).1.ledger_events ≡ row_of host input ∷ db.ledger_events)
  unfolding insert_ledger_event insert_event to_sql_integer ◌>>=◌
  inserted = ground arith

  pub insert_ledger_event-IsChain :
      Continues host db input
      → IsChain host db.ledger_events
      → IsChain host (insert_ledger_event host input db).1.ledger_events
  insert_ledger_event-IsChain next chain =
      let n = next_server_sequence-IsChain host db chain in
      let h = previous_ledger_hash-IsChain host db chain in
      let sequence = next.sequence in
      let previous = next.previous_eq in
      let resulting = next.resulting_eq in
      elim inserted [
        | inl same ↦ rw same chain
        | inr added ↦ rw added (
          record {
            input = input;
            row_eq = refl;
            sequence = cc;
            previous_eq = cc;
            resulting_eq = cc;
          },
          chain,
        )
      ]
