-- ===== src/Projections/Totals.antt =====
-- `rebuildCashPosition` of server/src/projections/worker.ts on the balances that the worker writes.
use vorcaro_ledger.Prelude.{
  Bool, false, List, [], ◌∷◌, text_eq_iff, any, filter_by, All, ◌≡◌, refl, arith, inl, inr,
  Bool-cases,
}
use vorcaro_ledger.Protocol.Result.{ok, ◌>>=◌}
use vorcaro_ledger.Database.Select.{to_sql_integer}
use vorcaro_ledger.Projections.Tables.{AccountRow, CashPositionRow}
use vorcaro_ledger.Projections.Cash.{
  AccountAggregateRow, in_group, aggregate_account, aggregate, read_groups, cash_position_row,
  same_position, open_accounts,
}
use vorcaro_ledger.Projections.Frame.{insert_rows}

-- Every balance is 0.
abbrev pub AllZero : List AccountRow → Type 0
AllZero = All (λ a. a.balance_minor_units ≡ 0)

abbrev ZeroTotals : List AccountAggregateRow → Type 0
ZeroTotals = All (λ g. g.total_minor_units ≡ 0)

aggregate_account-ZeroTotals :
    (a : AccountRow) (gs : List AccountAggregateRow)
    → a.balance_minor_units ≡ 0
    → ZeroTotals gs
    → ZeroTotals (aggregate_account a gs)
unfolding aggregate_account
aggregate_account-ZeroTotals a [] h k = (h, tt)
aggregate_account-ZeroTotals a (g ∷ gs) h k = elim (Bool-cases (in_group a g)) [
  | inl same ↦ rw same (omega (arith, h, k.0), k.1)
  | inr other ↦ rw other (k.0, aggregate_account-ZeroTotals a gs h k.1)
]

aggregate-ZeroTotals :
    (accounts : List AccountRow) → AllZero accounts → ZeroTotals (aggregate accounts)
unfolding aggregate
aggregate-ZeroTotals [] h = tt
aggregate-ZeroTotals (a ∷ accounts) h =
    aggregate_account-ZeroTotals a (aggregate accounts) h.0 (aggregate-ZeroTotals accounts h.1)

read_groups-ZeroTotals : (gs : List AccountAggregateRow) → ZeroTotals gs → read_groups gs ≡ ok gs
unfolding read_groups to_sql_integer
read_groups-ZeroTotals [] h = refl
read_groups-ZeroTotals (g ∷ gs) h = rw (h.0, read_groups-ZeroTotals gs h.1) (ground (arith, h.0))

-- No two groups have the same key.
abbrev same_key : AccountAggregateRow → AccountAggregateRow → Bool
same_key g g' = same_position (cash_position_row g) (cash_position_row g')

abbrev IsGrouped : List AccountAggregateRow → Type 0
IsGrouped [] = Unit
IsGrouped (g ∷ gs) = All (λ g'. same_key g g' ≡ false) gs × IsGrouped gs

-- A group that no group of the list was like stays unlike them when an account of another joins.
aggregate_account-unlike :
    (a : AccountRow) (g : AccountAggregateRow) (gs : List AccountAggregateRow)
    → in_group a g ≡ false
    → All (λ g'. same_key g g' ≡ false) gs
    → All (λ g'. same_key g g' ≡ false) (aggregate_account a gs)
unfolding aggregate_account
aggregate_account-unlike a g [] h k = (
  ground (
    arith,
    text_eq_iff a.entity_id g.entity_id,
    text_eq_iff g.entity_id a.entity_id,
    text_eq_iff a.currency g.currency,
    text_eq_iff g.currency a.currency,
  ),
  tt,
)
aggregate_account-unlike a g (x ∷ xs) h k = elim (Bool-cases (in_group a x)) [
  | inl same ↦ rw same k
  | inr other ↦ rw other (k.0, aggregate_account-unlike a g xs h k.1)
]

aggregate_account-IsGrouped :
    (a : AccountRow) (gs : List AccountAggregateRow)
    → IsGrouped gs
    → IsGrouped (aggregate_account a gs)
unfolding aggregate_account
aggregate_account-IsGrouped a [] h = (tt, tt)
aggregate_account-IsGrouped a (g ∷ gs) h = elim (Bool-cases (in_group a g)) [
  | inl same ↦ rw same h
  | inr other ↦
      rw other (aggregate_account-unlike a g gs other h.0, aggregate_account-IsGrouped a gs h.1)
]

aggregate-IsGrouped : (accounts : List AccountRow) → IsGrouped (aggregate accounts)
unfolding aggregate
aggregate-IsGrouped [] = tt
aggregate-IsGrouped (a ∷ accounts) =
    aggregate_account-IsGrouped a (aggregate accounts) (aggregate-IsGrouped accounts)

-- The rows so far are unlike each group to come.
abbrev Unlike : List AccountAggregateRow → List CashPositionRow → Type 0
Unlike gs rows = All (λ g. any (same_position (cash_position_row g)) rows ≡ false) gs

Unlike-cons :
    (g : AccountAggregateRow) (gs : List AccountAggregateRow) (rows : List CashPositionRow)
    → All (λ g'. same_key g g' ≡ false) gs
    → Unlike gs rows
    → Unlike gs (cash_position_row g ∷ rows)
unfolding any
Unlike-cons g [] rows h k = tt
Unlike-cons g (x ∷ xs) rows h k = (
  ground (
    arith,
    h.0,
    k.0,
    text_eq_iff x.entity_id g.entity_id,
    text_eq_iff g.entity_id x.entity_id,
    text_eq_iff x.currency g.currency,
    text_eq_iff g.currency x.currency,
  ),
  Unlike-cons g xs rows h.1 k.1,
)

insert_rows-IsGrouped :
    (gs : List AccountAggregateRow) (rows : List CashPositionRow)
    → IsGrouped gs
    → Unlike gs rows
    → (rows' : List CashPositionRow) × (insert_rows gs rows ≡ ok rows')
unfolding insert_rows
insert_rows-IsGrouped [] rows h k = (rows, refl)
insert_rows-IsGrouped (g ∷ gs) rows h k =
    rw (k.0)
      (insert_rows-IsGrouped gs (cash_position_row g ∷ rows) h.1 (Unlike-cons g gs rows h.0 k.1))

Unlike-nil : (gs : List AccountAggregateRow) → Unlike gs []
unfolding any
Unlike-nil [] = tt
Unlike-nil (g ∷ gs) = (refl, Unlike-nil gs)

open_accounts-AllZero :
    (accounts : List AccountRow) → AllZero accounts → AllZero (open_accounts accounts)
unfolding filter_by
open_accounts-AllZero [] h = tt
open_accounts-AllZero (a ∷ accounts) h =
    ground (arith, h.0, h.1, open_accounts-AllZero accounts h.1)

-- On balances of 0 the cash position is rebuilt without an error.
pub groups-AllZero :
    (accounts : List AccountRow)
    → AllZero accounts
    → (rows : List CashPositionRow) × (read_groups (aggregate (open_accounts accounts)) >>= λ gs.
          insert_rows gs [])
        ≡ ok rows
groups-AllZero accounts h =
    let gs = aggregate (open_accounts accounts) in
    rw
      (read_groups-ZeroTotals gs
        (aggregate-ZeroTotals (open_accounts accounts) (open_accounts-AllZero accounts h)))
      (insert_rows-IsGrouped gs [] (aggregate-IsGrouped (open_accounts accounts)) (Unlike-nil gs))
