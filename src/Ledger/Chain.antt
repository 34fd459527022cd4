-- ===== src/Ledger/Chain.antt =====
-- The hash chain of the ledger: the rows are numbered without gaps, and each is linked to the one
-- before it.
pub mod Insertion
use mathlib.Core.Option
use vorcaro_ledger.Prelude.{
  ℕ, ◌+◌, Option, none, some, List, [], ◌∷◌, Text, length, ◌≡◌, refl, ap, arith, filter_by,
}
use vorcaro_ledger.Protocol.Types.{EventStatus, ErrorCode}
use vorcaro_ledger.Protocol.Result.{Result}
use vorcaro_ledger.Protocol.Envelope.{ClientEventEnvelope, ServerAck}
use vorcaro_ledger.Protocol.Crypto.{Host, compute_ledger_hash}
use vorcaro_ledger.Database.Tables.{Db, LedgerEventRow}
use vorcaro_ledger.Database.Select.{
  max_by, later, max_sequence, latest_event, next_server_sequence, previous_ledger_hash,
  sequence_or_zero, hash_or_genesis, genesis_ledger_hash,
}
use vorcaro_ledger.Ledger.Rows.{InsertInput, row_of}
use vorcaro_ledger.Ledger.Append.{Appender}
use vorcaro_ledger.Ledger.Admission.{AppendEventRequest, append_now}
use vorcaro_ledger.Ledger.Effects.{Appended, input_at}
use vorcaro_ledger.Ledger.Frame.{Appended-frame}
use vorcaro_ledger.Ledger.Outcome.{Outcome, thrown, repeated, refused, written}
use vorcaro_ledger.Ledger.Outcome.Cases.{append_now-Outcome}

-- The hash that the next row continues; the newest row stands first.
abbrev pub tip : List LedgerEventRow → Text
tip [] = genesis_ledger_hash
tip (r ∷ rs) = Option.get_or r.resulting_ledger_hash genesis_ledger_hash

-- The row of some event with number `n`, whose hash binds the event to `previous`.
pub record IsLink (host : Host) (previous : Text) (n : ℕ) (row : LedgerEventRow) : Type 0 where
  pub input : InsertInput
  pub row_eq : row ≡ row_of host input
  pub sequence : input.server_sequence ≡ n
  pub previous_eq : input.previous_ledger_hash ≡ previous
  pub resulting_eq : input.resulting_ledger_hash ≡ compute_ledger_hash host previous n input.event

abbrev pub IsChain : Host → List LedgerEventRow → Type 0
IsChain host [] = Unit
IsChain host (r ∷ rs) = IsLink host (tip rs) (length rs + 1) r × IsChain host rs

module _ (host : Host) where
  pub link_sequence :
      (previous : Text) (n : ℕ) (row : LedgerEventRow)
      → IsLink host previous n row
      → row.server_sequence ≡ some n
  unfolding row_of
  link_sequence previous n row link = ground (arith, link.row_eq, link.sequence)

  pub max_sequence-IsChain :
      (rows : List LedgerEventRow) → IsChain host rows → max_sequence rows ≡ length rows
  unfolding max_sequence
  max_sequence-IsChain [] chain = refl
  max_sequence-IsChain (r ∷ rs) chain =
      rw (link_sequence (tip rs) (length rs + 1) r chain.0, max_sequence-IsChain rs chain.1)
        (omega arith)

  abbrev first : List LedgerEventRow → Option LedgerEventRow
  first [] = none
  first (r ∷ rs) = some r

  later-first :
      (r : LedgerEventRow) (rs : List LedgerEventRow)
      → IsChain host (r ∷ rs)
      → later sequence_or_zero r (first rs) ≡ r
  unfolding later
  later-first r [] chain = refl
  later-first r (q ∷ qs) chain = ground (
    arith,
    link_sequence (tip (q ∷ qs)) (length (q ∷ qs) + 1) r chain.0,
    link_sequence (tip qs) (length qs + 1) q chain.1.0,
  )

  -- The newest row has the highest number.
  latest_event-IsChain :
      (rows : List LedgerEventRow) → IsChain host rows → latest_event rows ≡ first rows
  unfolding latest_event max_by filter_by
  latest_event-IsChain [] chain = refl
  latest_event-IsChain (r ∷ rs) chain =
      let numbered = link_sequence (tip rs) (length rs + 1) r chain.0 in
      let rest = latest_event-IsChain rs chain.1 in ground (arith, later-first r rs chain)

  pub previous_ledger_hash-IsChain :
      (db : Db) → IsChain host db.ledger_events → previous_ledger_hash db ≡ tip db.ledger_events
  unfolding previous_ledger_hash
  previous_ledger_hash-IsChain db chain =
      rw (latest_event-IsChain db.ledger_events chain) (hash_or_genesis_first db.ledger_events)
    where
      hash_or_genesis_first : (rows : List LedgerEventRow) → hash_or_genesis (first rows) ≡ tip rows
      hash_or_genesis_first [] = refl
      hash_or_genesis_first (r ∷ rs) = refl

  pub next_server_sequence-IsChain :
      (db : Db)
      → IsChain host db.ledger_events
      → next_server_sequence db ≡ length db.ledger_events + 1
  unfolding next_server_sequence
  next_server_sequence-IsChain db chain = rw (max_sequence-IsChain db.ledger_events chain)

module _ (a : Appender) (event : ClientEventEnvelope) (status : EventStatus)
    (code : Option ErrorCode) (db : Db) (ack : ServerAck) (db' : Db)
    (done : Appended a event status code db ack db') (chain : IsChain a.host db.ledger_events) where
  new-IsLink : IsLink a.host (tip db.ledger_events) (length db.ledger_events + 1) done.row
  new-IsLink =
      let n = next_server_sequence-IsChain a.host db chain in
      let h = previous_ledger_hash-IsChain a.host db chain in
      record {
        input = input_at a event status code ack.server_signature db;
        row_eq = done.row_eq;
        sequence = n;
        previous_eq = h;
        resulting_eq = cc;
      }

  Appended-IsChain : IsChain a.host db'.ledger_events
  Appended-IsChain =
      rw (ap (λ (d : Db). d.ledger_events) (Appended-frame a event status code db ack db' done))
        (new-IsLink, chain)

module _ (a : Appender) (request : AppendEventRequest) (db : Db) where
  after-Outcome :
      (r : Result ServerAck × Db)
      → Outcome a request db r
      → IsChain a.host db.ledger_events
      → IsChain a.host r.1.ledger_events
  after-Outcome r (thrown e same) chain = rw same chain
  after-Outcome r (repeated row seen same) chain = rw same chain
  after-Outcome r (refused code ack new signed same) chain = rw same chain
  after-Outcome r (written status code ack db' valid new ruling done same) chain =
      rw same (Appended-IsChain a request.event status code db ack db' done chain)

  -- Where the ledger's rows are numbered 1, 2, 3, … without a gap and each one carries the hash of
  -- its event and of the row before it, they are and do after a request, whatever its outcome.
  pub append_now-IsChain :
      IsChain a.host db.ledger_events → IsChain a.host (append_now a request db).1.ledger_events
  append_now-IsChain = after-Outcome (append_now a request db) (append_now-Outcome a request db)
