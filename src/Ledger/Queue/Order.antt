-- ===== src/Ledger/Queue/Order.antt =====
-- The order in which `appendBatch` of server/src/ledger/appender.ts runs its requests.
use mathlib.Core.List.{Perm}
use vorcaro_ledger.Prelude.{
  ℕ, ◌+◌, ◌≤◌, true, false, List, [], ◌∷◌, ◌++◌, map, Text, All, ◌≡◌, refl, ap, arith,
}
use vorcaro_ledger.Prelude.Sort.{sort, sort-perm, sort-IsSorted, IsSorted}
use vorcaro_ledger.Protocol.Result.{Result, ok, err}
use vorcaro_ledger.Protocol.Envelope.{ServerAck}
use vorcaro_ledger.Protocol.Crypto.{Host}
use vorcaro_ledger.Database.Tables.{Db}
use vorcaro_ledger.Database.Action.{pure, ◌>>=◌}
use vorcaro_ledger.Ledger.Admission.{AppendEventRequest, append_now}
use vorcaro_ledger.Ledger.Queue.{at_time, run_queue, request_le, append_each, append_batch}
use vorcaro_ledger.Ledger.Append.{Appender}

-- What `localeCompare` promises: its order is total and transitive, on the texts as it compares
-- them.
pub record IsCollation (host : Host) : Type 0 where
  pub total : (s t : Text) → host.locale_le s t ≡ false → host.locale_le t s ≡ true
  pub trans :
      (s t u : Text)
      → host.locale_le s t ≡ true
      → host.locale_le t u ≡ true
      → host.locale_le s u ≡ true

-- Of the same device, the event with the lower counter stands first.
abbrev pub InDeviceOrder : AppendEventRequest → AppendEventRequest → Type 0
InDeviceOrder first second =
    first.event.device_id ≡ second.event.device_id
    → first.event.device_event_counter ≤ second.event.device_event_counter

abbrev pub DeviceOrdered : List AppendEventRequest → Type 0
DeviceOrdered [] = Unit
DeviceOrdered (r ∷ rs) = All (InDeviceOrder r) rs × DeviceOrdered rs

module _ (host : Host) (collation : IsCollation host) where
  request_le-total :
      (x y : AppendEventRequest) → request_le host x y ≡ false → request_le host y x ≡ true
  unfolding request_le
  request_le-total x y h = ground (
    arith,
    collation.total x.event.device_id y.event.device_id,
    collation.total y.event.device_id x.event.device_id,
  )

  request_le_trans :
      (x y z : AppendEventRequest)
      → request_le host x y ≡ true
      → request_le host y z ≡ true
      → request_le host x z ≡ true
  unfolding request_le
  request_le_trans x y z h k = ground (
    arith,
    collation.trans x.event.device_id y.event.device_id z.event.device_id,
    collation.trans z.event.device_id x.event.device_id y.event.device_id,
    collation.trans y.event.device_id z.event.device_id x.event.device_id,
    collation.trans z.event.device_id y.event.device_id x.event.device_id,
  )

  in_device_order : (x y : AppendEventRequest) → request_le host x y ≡ true → InDeviceOrder x y
  unfolding request_le
  in_device_order x y h same = ground (
    arith,
    collation.total x.event.device_id y.event.device_id,
    collation.total y.event.device_id x.event.device_id,
    ap (host.locale_le x.event.device_id) same,
    ap (λ d. host.locale_le d x.event.device_id) same,
    ap (host.locale_le y.event.device_id) same,
  )

  All-in_order :
      (x : AppendEventRequest) (ys : List AppendEventRequest)
      → All (λ y. request_le host x y ≡ true) ys
      → All (InDeviceOrder x) ys
  All-in_order x [] h = tt
  All-in_order x (y ∷ ys) h = (in_device_order x y h.0, All-in_order x ys h.1)

  sorted_in_order :
      (rs : List AppendEventRequest) → IsSorted (request_le host) rs → DeviceOrdered rs
  sorted_in_order [] h = tt
  sorted_in_order (r ∷ rs) h = (All-in_order r rs h.0, sorted_in_order rs h.1)

module _ (a : Appender) (times : ℕ → Text) where
  -- How a batch of which requests are left ends: with the acknowledgements of all, or with the error
  -- of the last one that ran.
  abbrev pub Ends :
      List (Result ServerAck) → List AppendEventRequest → Result (List ServerAck) → Type 0
  Ends results left (ok acks) = (results ≡ map ok acks) × (left ≡ [])
  Ends results left (err e) = (acks : List ServerAck) × (results ≡ map ok acks ++ err e ∷ [])

  -- The requests of the order that ran, one after the other, and what became of each.
  pub record Ran (i : ℕ) (order : List AppendEventRequest) (db : Db)
      (outcome : Result (List ServerAck) × Db) : Type 0 where
    pub ran : List AppendEventRequest
    pub left : List AppendEventRequest
    pub results : List (Result ServerAck)
    pub split : order ≡ ran ++ left
    pub runs : run_queue a times i ran db ≡ (results, outcome.1)
    pub ends : Ends results left outcome.0

  Ran-first :
      (i : ℕ) (request : AppendEventRequest) (requests : List AppendEventRequest) (db : Db)
      (ack : ServerAck) (outcome : Result (List ServerAck) × Db)
      → (append_now (at_time a (times i)) request db).0 ≡ ok ack
      → Ran (i + 1) requests (append_now (at_time a (times i)) request db).1 outcome
      → Ran i (request ∷ requests) db (((λ _. outcome) >>= (λ acks. pure (ack ∷ acks))) db)
  unfolding run_queue ◌>>=◌
  Ran-first i request requests db ack (ok acks, db') returned rest = record {
    ran = request ∷ rest.ran;
    left = rest.left;
    results = ok ack ∷ rest.results;
    split = ap (λ rs. request ∷ rs) rest.split;
    runs = rw (rest.runs, returned) refl;
    ends = (ap (λ rs. ok ack ∷ rs) rest.ends.0, rest.ends.1);
  }
  Ran-first i request requests db ack (err e, db') returned rest = record {
    ran = request ∷ rest.ran;
    left = rest.left;
    results = ok ack ∷ rest.results;
    split = ap (λ rs. request ∷ rs) rest.split;
    runs = rw (rest.runs, returned) refl;
    ends = (ack ∷ rest.ends.0, ap (λ rs. ok ack ∷ rs) rest.ends.1);
  }

  -- The loop behind a request of which this has become.
  Ran-settled :
      (i : ℕ) (request : AppendEventRequest) (requests : List AppendEventRequest) (db : Db)
      (settled : Result ServerAck × Db)
      → append_now (at_time a (times i)) request db ≡ settled
      → ((db1 : Db) → Ran (i + 1) requests db1 (append_each a times (i + 1) requests db1))
      → Ran i (request ∷ requests) db (
          ((λ _. settled)
              >>= (λ ack. append_each a times (i + 1) requests >>= (λ acks. pure (ack ∷ acks))))
            db)
  unfolding run_queue ◌>>=◌
  Ran-settled i request requests db (ok ack, db1) is rest =
      Ran-first i request requests db ack (append_each a times (i + 1) requests db1) (rw is refl)
        (rw is (rest db1))
  Ran-settled i request requests db (err e, db1) is rest = record {
    ran = request ∷ [];
    left = requests;
    results = err e ∷ [];
    split = refl;
    runs = rw is refl;
    ends = ([], refl);
  }

  append_each-Ran :
      (i : ℕ) (order : List AppendEventRequest) (db : Db)
      → Ran i order db (append_each a times i order db)
  unfolding append_each run_queue ◌>>=◌
  append_each-Ran i [] db = record {
    ran = [];
    left = [];
    results = [];
    split = refl;
    runs = refl;
    ends = (refl, refl);
  }
  append_each-Ran i (request ∷ requests) db =
      Ran-settled i request requests db (append_now (at_time a (times i)) request db) refl
        (append_each-Ran (i + 1) requests)

  -- Where `localeCompare` orders texts totally and transitively, a batch runs its requests through
  -- the queue in an order in which those of one device stand by ascending counters: it returns the
  -- acknowledgements of all of them, or it stops at the first one that throws, with its error, and
  -- leaves the database as the queue does that runs the requests up to that one.
  pub append_batch-Ran :
      IsCollation a.host
      → (requests : List AppendEventRequest) (db : Db)
      → (order : List AppendEventRequest) × Perm order requests
        × DeviceOrdered order
        × Ran 0 order db (append_batch a times requests db)
  unfolding append_batch
  append_batch-Ran collation requests db =
      let order = sort (request_le a.host) requests in
      (
        order,
        sort-perm (request_le a.host) requests,
        sorted_in_order a.host collation order (
            sort-IsSorted (request_le a.host) (request_le-total a.host collation)
              (request_le_trans a.host collation) requests),
        append_each-Ran 0 order db,
      )
