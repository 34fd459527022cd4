-- ===== src/Ledger/Queue/Invariants.antt =====
-- The ledger's invariants over any sequence of requests to server/src/ledger/appender.ts.
use vorcaro_ledger.Prelude.{ℕ, ◌+◌, List, [], ◌∷◌, Text, refl, ap, Extends, extended}
use vorcaro_ledger.Protocol.Result.{Result}
use vorcaro_ledger.Protocol.Envelope.{ServerAck}
use vorcaro_ledger.Database.Tables.{Db, LedgerEventRow}
use vorcaro_ledger.Ledger.Append.{Appender}
use vorcaro_ledger.Ledger.Admission.{AppendEventRequest, append_now}
use vorcaro_ledger.Ledger.Chain.{IsChain, append_now-IsChain}
use vorcaro_ledger.Ledger.Agreement.{Agrees}
use vorcaro_ledger.Ledger.Agreement.Appends.{append_now-Agrees}
use vorcaro_ledger.Ledger.Frame.{Appended-frame}
use vorcaro_ledger.Ledger.Outcome.{Outcome, thrown, repeated, refused, written}
use vorcaro_ledger.Ledger.Outcome.Cases.{append_now-Outcome}
use vorcaro_ledger.Ledger.Queue.{at_time, run_queue}

-- What every request keeps, every sequence keeps.
module _ (a : Appender) (times : ℕ → Text) (P : Db → Type 0)
    (keeps : (now : Text) (request : AppendEventRequest) (db : Db)
      → P db
      → P (append_now (at_time a now) request db).1) where
  run_queue_keeps :
      (i : ℕ) (requests : List AppendEventRequest) (db : Db)
      → P db
      → P (run_queue a times i requests db).1
  unfolding run_queue
  run_queue_keeps i [] db h = h
  run_queue_keeps i (request ∷ requests) db h =
      run_queue_keeps (i + 1) requests (append_now (at_time a (times i)) request db).1
        (keeps (times i) request db h)

-- The rows that were there stay where they are, below what was added.
module _ (a : Appender) (request : AppendEventRequest) (db : Db) (old : List LedgerEventRow) where
  Outcome-Extends :
      (r : Result ServerAck × Db)
      → Outcome a request db r
      → Extends old db.ledger_events
      → Extends old r.1.ledger_events
  Outcome-Extends r (thrown e same) h = rw same h
  Outcome-Extends r (repeated row seen same) h = rw same h
  Outcome-Extends r (refused code ack new signed same) h = rw same h
  Outcome-Extends r (written status code ack db' valid new ruling done same) h =
      let rows =
        ap (λ (d : Db). d.ledger_events)
          (Appended-frame a request.event status code db ack db' done) in
      rw (same, rows) (extended done.row h)

  pub append_now-Extends :
      Extends old db.ledger_events → Extends old (append_now a request db).1.ledger_events
  append_now-Extends = Outcome-Extends (append_now a request db) (append_now-Outcome a request db)

-- What the invariants say together.
pub record IsSound (a : Appender) (old : List LedgerEventRow) (db : Db) : Type 0 where
  pub chain : IsChain a.host db.ledger_events
  pub agreed : Agrees db
  pub extends : Extends old db.ledger_events

module _ (a : Appender) (times : ℕ → Text) where
  IsSound-step :
      (old : List LedgerEventRow) (now : Text) (request : AppendEventRequest) (db : Db)
      → IsSound a old db
      → IsSound a old (append_now (at_time a now) request db).1
  IsSound-step old now request db h = record {
    chain = append_now-IsChain (at_time a now) request db h.chain;
    agreed = append_now-Agrees (at_time a now) request db h.agreed;
    extends = append_now-Extends (at_time a now) request db old h.extends;
  }

  -- Any sequence of requests through the queue, of which some may throw, keeps the hash chain
  -- gapless and linked and the marks and conflicts in agreement, and leaves every row that was in
  -- the ledger in its place.
  pub run_queue-IsSound :
      (requests : List AppendEventRequest) (db : Db)
      → IsChain a.host db.ledger_events
      → Agrees db
      → IsSound a db.ledger_events (run_queue a times 0 requests db).1
  run_queue-IsSound requests db chain agreed =
      run_queue_keeps a times (IsSound a db.ledger_events) (IsSound-step db.ledger_events) 0
        requests db (record { chain = chain; agreed = agreed; extends = ([], refl) })
