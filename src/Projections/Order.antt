-- ===== src/Projections/Order.antt =====
-- The batches of server/src/projections/worker.ts cut the ledger's events in sequence order.
use vorcaro_ledger.Prelude.{
  ℕ, zero, suc, ◌+◌, ◌≤◌, ◌<◌, false, List, [], ◌∷◌, length, filter_by, take, drop, All,
  filter_by-All, ◌++◌, ap, sym, ◌∙◌, ◌≡◌, refl, arith, inl, inr, Bool-cases,
}
use vorcaro_ledger.Prelude.Sort.{insert, sort, insert-All, sort-All}
use vorcaro_ledger.Protocol.Crypto.{Host}
use vorcaro_ledger.Database.Tables.{LedgerEventRow}
use vorcaro_ledger.Ledger.Chain.{IsChain, tip, link_sequence}
use vorcaro_ledger.Projections.Statements.{LedgerEvent}
use vorcaro_ledger.Projections.Worker.{numbered_events, event_le, is_after, to_sequence}

abbrev Before : LedgerEvent → LedgerEvent → Type 0
Before x y = x.server_sequence < y.server_sequence

-- Each event's number is below all later ones.
abbrev pub IsAscending : List LedgerEvent → Type 0
IsAscending [] = Unit
IsAscending (e ∷ es) = All (Before e) es × IsAscending es

abbrev Below : ℕ → List LedgerEvent → Type 0
Below n = All (λ e. e.server_sequence < n)

-- An event above all others goes last.
insert-IsAscending :
    (e : LedgerEvent) (es : List LedgerEvent)
    → Below e.server_sequence es
    → IsAscending es
    → IsAscending (insert event_le e es)
unfolding insert
insert-IsAscending e [] h k = (tt, tt)
insert-IsAscending e (x ∷ xs) h k =
    let behind : event_le e x ≡ false = ground (arith, h.0) in
    rw behind (insert-All event_le (Before x) e xs h.0 k.0, insert-IsAscending e xs h.1 k.1)

Below-weaken : (m n : ℕ) (es : List LedgerEvent) → m ≤ n → Below m es → Below n es
Below-weaken m n [] h k = tt
Below-weaken m n (e ∷ es) h k = (omega (arith, k.0), Below-weaken m n es h k.1)

module _ (host : Host) where
  numbered-Below :
      (rows : List LedgerEventRow)
      → IsChain host rows
      → Below (length rows + 1) (numbered_events rows)
  unfolding numbered_events
  numbered-Below [] chain = tt
  numbered-Below (r ∷ rs) chain = rw (link_sequence host (tip rs) (length rs + 1) r chain.0) (
    omega arith,
    Below-weaken (length rs + 1) (length (r ∷ rs) + 1) (numbered_events rs) (omega arith)
        (numbered-Below rs chain.1),
  )

  -- The events of a hash chain, sorted, ascend.
  pub sort-numbered_events-IsAscending :
      (rows : List LedgerEventRow)
      → IsChain host rows
      → IsAscending (sort event_le (numbered_events rows))
  unfolding numbered_events sort
  sort-numbered_events-IsAscending [] chain = tt
  sort-numbered_events-IsAscending (r ∷ rs) chain =
      rw (link_sequence host (tip rs) (length rs + 1) r chain.0) (
        insert-IsAscending _ (sort event_le (numbered_events rs))
          (sort-All event_le (λ e. e.server_sequence < length rs + 1) (numbered_events rs)
            (numbered-Below rs chain.1))
          (sort-numbered_events-IsAscending rs chain.1))

filter_by_every :
    (n : ℕ) (es : List LedgerEvent)
    → All (λ e. n < e.server_sequence) es
    → filter_by (is_after n) es ≡ es
unfolding filter_by
filter_by_every n [] h = refl
filter_by_every n (e ∷ es) h = rw (filter_by_every n es h.1) (ground (arith, h.0))

All-after :
    (n : ℕ) (es : List LedgerEvent) → All (λ e. n < e.server_sequence) (filter_by (is_after n) es)
unfolding filter_by
All-after n [] = tt
All-after n (e ∷ es) = elim (Bool-cases (is_after n e)) [
  | inl after ↦ rw after (ground (arith, after), All-after n es)
  | inr before ↦ rw before (All-after n es)
]

filter_by-IsAscending :
    (n : ℕ) (es : List LedgerEvent) → IsAscending es → IsAscending (filter_by (is_after n) es)
unfolding filter_by
filter_by-IsAscending n [] h = tt
filter_by-IsAscending n (e ∷ es) h = elim (Bool-cases (is_after n e)) [
  | inl after ↦
      rw after (filter_by-All (Before e) (is_after n) es h.0, filter_by-IsAscending n es h.1)
  | inr before ↦ rw before (filter_by-IsAscending n es h.1)
]

to_sequence_ge :
    (k n : ℕ) (es : List LedgerEvent)
    → IsAscending es
    → All (λ e. n < e.server_sequence) es
    → n ≤ to_sequence n (take k es)
unfolding take to_sequence
to_sequence_ge zero n es h k = omega arith
to_sequence_ge (suc j) n [] h k = omega arith
to_sequence_ge (suc j) n (e ∷ es) h k =
    omega (arith, k.0, to_sequence_ge j e.server_sequence es h.1 h.0)

filter_by-filter_by :
    (m n : ℕ) (es : List LedgerEvent)
    → m ≤ n
    → filter_by (is_after n) (filter_by (is_after m) es) ≡ filter_by (is_after n) es
unfolding filter_by
filter_by-filter_by m n [] h = refl
filter_by-filter_by m n (e ∷ es) h = ground (arith, filter_by-filter_by m n es h)

pub take-drop : (k : ℕ) (es : List LedgerEvent) → take k es ++ drop k es ≡ es
unfolding take drop
take-drop zero es = refl
take-drop (suc k) [] = refl
take-drop (suc k) (e ∷ es) = ap (λ xs. e ∷ xs) (take-drop k es)

pub to_sequence-append :
    (n : ℕ) (xs ys : List LedgerEvent)
    → to_sequence n (xs ++ ys) ≡ to_sequence (to_sequence n xs) ys
unfolding to_sequence
to_sequence-append n [] ys = refl
to_sequence-append n (x ∷ xs) ys = to_sequence-append x.server_sequence xs ys

-- What stands behind the last of the first `k` is the rest.
drop-after :
    (k n : ℕ) (es : List LedgerEvent)
    → IsAscending es
    → All (λ e. n < e.server_sequence) es
    → filter_by (is_after (to_sequence n (take k es))) es ≡ drop k es
unfolding take drop to_sequence filter_by
drop-after zero n es h k = filter_by_every n es k
drop-after (suc j) n [] h k = refl
drop-after (suc j) n (e ∷ es) h k = rw (← drop-after j e.server_sequence es h.1 h.0) (
    at_head (to_sequence e.server_sequence (take j es))
      (to_sequence_ge j e.server_sequence es h.1 h.0))
  where
    at_head :
        (m : ℕ)
        → e.server_sequence ≤ m
        → filter_by (is_after m) (e ∷ es) ≡ filter_by (is_after m) es
    at_head m le = ground arith

-- The batch behind a batch is what that left of the events.
pub read-rest :
    (k n : ℕ) (es : List LedgerEvent)
    → IsAscending es
    → filter_by (is_after (to_sequence n (take k (filter_by (is_after n) es)))) es
      ≡ drop k (filter_by (is_after n) es)
read-rest k n es h =
    let later = filter_by (is_after n) es in
    let from = to_sequence_ge k n later (filter_by-IsAscending n es h) (All-after n es) in
    sym (filter_by-filter_by n (to_sequence n (take k later)) es from)
    ∙ drop-after k n later (filter_by-IsAscending n es h) (All-after n es)
