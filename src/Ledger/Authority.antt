-- ===== src/Ledger/Authority.antt =====
-- What stands behind a row that `appendNow` of server/src/ledger/appender.ts writes with a status
-- other than rejected.
use vorcaro_ledger.Prelude.{
  ℕ, is_defined, ◌≤◌, ◌<◌, true, false, Option, none, some, List, ◌≡◌, refl, arith, subst,
}
use vorcaro_ledger.Protocol.Types.{EventStatus, EventType, ErrorCode, Role}
use vorcaro_ledger.Protocol.Result.{Result, ok}
use vorcaro_ledger.Protocol.Envelope.{ServerAck}
use vorcaro_ledger.Policy.Document.{allow, require_approvals}
use vorcaro_ledger.Database.Tables.{Db, ObjectHeadRow}
use vorcaro_ledger.Database.Select.{find_existing_event}
use vorcaro_ledger.Ledger.Append.{Appender}
use vorcaro_ledger.Ledger.Admission.{AppendEventRequest, append_now, is_conflicted, is_stale}
use vorcaro_ledger.Ledger.Outcome.{
  Outcome, thrown, repeated, refused, written, Ruling, rejects, waits, resolves, changes, collides,
  Authorised, policy_says, head_of, conflict_of,
}
use vorcaro_ledger.Ledger.Outcome.Cases.{append_now-Outcome}
use vorcaro_ledger.Ledger.Idempotence.{refused-sequence, Appended-ack}

-- The event was made on a state at least as new as the head of its object.
abbrev pub IsCurrent : ℕ → Option ObjectHeadRow → Type 0
IsCurrent base none = Unit
IsCurrent base (some head) = head.head_sequence ≤ base

module _ (a : Appender) (request : AppendEventRequest) (db : Db) where
  -- What each status says of the request.
  pub data Grounds (status : EventStatus) : Type 0 where
    rejected : status ≡ EventStatus.rejected → Grounds status
    pending :
        status ≡ EventStatus.pending
        → (auth : Authorised a request db) (roles : List Role) (count : ℕ)
        → policy_says a request db auth.device ≡ ok (require_approvals roles count)
        → Grounds status
    accepted_resolution :
        status ≡ EventStatus.accepted
        → (auth : Authorised a request db) → policy_says a request db auth.device ≡ ok allow
        → request.event.event_type ≡ EventType.conflict_resolved
        → is_conflicted (head_of a request db) ≡ true
        → is_defined (conflict_of a request db) ≡ true
        → Grounds status
    accepted_change :
        status ≡ EventStatus.accepted
        → (auth : Authorised a request db) → policy_says a request db auth.device ≡ ok allow
        → is_conflicted (head_of a request db) ≡ false
        → IsCurrent request.event.base_server_sequence (head_of a request db)
        → Grounds status
    conflicted :
        status ≡ EventStatus.conflicted
        → (auth : Authorised a request db) → policy_says a request db auth.device ≡ ok allow
        → (head : ObjectHeadRow) → head_of a request db ≡ some head
        → head.conflicted ≡ false
        → request.event.base_server_sequence < head.head_sequence
        → Grounds status

  current :
      (head : Option ObjectHeadRow)
      → is_stale request.event head ≡ false
      → IsCurrent request.event.base_server_sequence head
  unfolding is_stale
  current none fits = tt
  current (some head) fits = ground arith

  stale :
      (head : Option ObjectHeadRow)
      → is_conflicted head ≡ false
      → is_stale request.event head ≡ true
      → (h : ObjectHeadRow) × (head ≡ some h)
        × (h.conflicted ≡ false)
        × (request.event.base_server_sequence < h.head_sequence)
  unfolding is_stale is_conflicted
  stale none unmarked late = absurd (cc)
  stale (some head) unmarked late = (head, refl, unmarked, ground arith)

  Ruling-Grounds :
      (status : EventStatus) (code : Option ErrorCode)
      → Ruling a request db status code
      → Grounds status
  Ruling-Grounds status code (rejects c is why) = Grounds.rejected is
  Ruling-Grounds status code (waits auth roles count said is why) =
      Grounds.pending is auth roles count said
  Ruling-Grounds status code (resolves auth said type marked listed is why) =
      Grounds.accepted_resolution is auth said type marked listed
  Ruling-Grounds status code (changes auth said type unmarked fits is why) =
      Grounds.accepted_change is auth said unmarked (current (head_of a request db) fits)
  Ruling-Grounds status code (collides auth said type unmarked late is why) =
      let (h, found, clean, older) = stale (head_of a request db) unmarked late in
      Grounds.conflicted is auth said h found clean older

  Outcome-Grounds :
      (ack : ServerAck) (db' : Db) (r : Result ServerAck × Db)
      → Outcome a request db r
      → r ≡ (ok ack, db')
      → find_existing_event request.event.event_id db ≡ none
      → Grounds ack.status
  Outcome-Grounds ack db' r (thrown e same) h new = absurd (ground arith)
  Outcome-Grounds ack db' r (repeated row seen same) h new = absurd (ground arith)
  Outcome-Grounds ack db' r (refused code ack' _ signed same) h new =
      Grounds.rejected (ground (arith, refused-sequence a request db code ack' signed))
  Outcome-Grounds ack db' r (written status code ack' db'' valid _ ruling done same) h new =
      subst Grounds (ground (arith, Appended-ack a request db status code ack' db'' done))
        (Ruling-Grounds status code ruling)

  -- The answer to an event that the ledger does not hold yet: if it is not rejected, an enrolled
  -- device that belongs to the acting, active executive has sent it under its own certificate with
  -- a counter above its watermark, a key of the executive that covers the base sequence verifies
  -- the signature, the payload has its hash, and the active policy asks for approvals (pending) or
  -- allows it; an accepted event resolves an open conflict of a conflicted object, or changes an
  -- unconflicted object on a base no older than its head; a conflicted one is older than the head.
  pub append_now-Grounds :
      (ack : ServerAck) (db' : Db)
      → append_now a request db ≡ (ok ack, db')
      → find_existing_event request.event.event_id db ≡ none
      → Grounds ack.status
  append_now-Grounds ack db' =
      Outcome-Grounds ack db' (append_now a request db) (append_now-Outcome a request db)
