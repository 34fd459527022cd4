-- ===== src/Ledger/Queue.antt =====
-- `append` and `appendBatch` of server/src/ledger/appender.ts: requests run one after the other.
pub mod Order
pub mod Invariants
use vorcaro_ledger.Prelude.{ℕ, ◌+◌, Bool, ◌&&◌, List, [], ◌∷◌, Text, leb, if◌then◌else◌}
use vorcaro_ledger.Prelude.Sort.{sort}
use vorcaro_ledger.Protocol.Result.{Result}
use vorcaro_ledger.Protocol.Envelope.{ServerAck}
use vorcaro_ledger.Protocol.Crypto.{Host}
use vorcaro_ledger.Database.Tables.{Db}
use vorcaro_ledger.Database.Action.{Action, pure, ◌>>=◌}
use vorcaro_ledger.Ledger.Append.{Appender}
use vorcaro_ledger.Ledger.Admission.{AppendEventRequest, append_now}

-- The appender when its clock shows a time.
abbrev pub at_time : Appender → Text → Appender
at_time a now = record a { now = now }

-- The chain of promises that `append` builds on `tail`: each request starts when the one before it
-- has settled, also if that one threw. `times i` is what the clock shows to the i-th request.
unfoldable pub run_queue :
    Appender → (ℕ → Text) → ℕ → List AppendEventRequest → Db → List (Result ServerAck) × Db
run_queue a times i [] db = ([], db)
run_queue a times i (request ∷ requests) db =
    let (r, db') = append_now (at_time a (times i)) request db in
    let (rs, last) = run_queue a times (i + 1) requests db' in (r ∷ rs, last)

-- The comparison of two requests of a batch is not above zero.
unfoldable pub request_le : Host → AppendEventRequest → AppendEventRequest → Bool
request_le host left right =
    if host.locale_le left.event.device_id right.event.device_id
      && host.locale_le right.event.device_id left.event.device_id
    then leb left.event.device_event_counter right.event.device_event_counter
    else host.locale_le left.event.device_id right.event.device_id

-- The loop over the ordered requests; the first one that throws ends it.
unfoldable pub append_each :
    Appender → (ℕ → Text) → ℕ → List AppendEventRequest → Action (List ServerAck)
append_each a times i [] = pure []
append_each a times i (request ∷ requests) = do
  ack ← append_now (at_time a (times i)) request
  acks ← append_each a times (i + 1) requests
  pure (ack ∷ acks)

unfoldable pub append_batch :
    Appender → (ℕ → Text) → List AppendEventRequest → Action (List ServerAck)
append_batch a times requests = append_each a times 0 (sort (request_le a.host) requests)
