-- ===== src/Projections/Cash.antt =====
-- `rebuildCashPosition` of server/src/projections/worker.ts.
use vorcaro_ledger.Prelude.{
  ℕ, ◌+◌, max, Bool, true, false, not, ◌&&◌, Option, none, List, [], ◌∷◌, Text, text_eq, any,
  filter_by, ltb, if◌then◌else◌,
}
use vorcaro_ledger.Protocol.Result.{Result, ok, err, sql_error, ◌>>=◌}
use vorcaro_ledger.Database.Select.{to_sql_integer}
use vorcaro_ledger.Projections.Tables.{ProjectionsDb, AccountStatus, AccountRow, CashPositionRow}

-- The columns that the SELECT fills with NULL are none.
pub record AccountAggregateRow : Type 0 where
  pub entity_id : Text
  pub currency : Text
  pub total_minor_units : ℕ
  pub default_currency : Option Text
  pub default_total_minor_units : Option ℕ
  pub default_currency_snapshot_id : Option Text
  pub as_of_sequence : ℕ

abbrev pub is_closed : AccountStatus → Bool
is_closed AccountStatus.active = false
is_closed AccountStatus.closed = true

abbrev pub in_group : AccountRow → AccountAggregateRow → Bool
in_group a g = text_eq g.entity_id a.entity_id && text_eq g.currency a.currency

abbrev pub group_of : AccountRow → AccountAggregateRow
group_of a = record {
  entity_id = a.entity_id;
  currency = a.currency;
  total_minor_units = a.balance_minor_units;
  default_currency = none;
  default_total_minor_units = none;
  default_currency_snapshot_id = none;
  as_of_sequence = a.as_of_sequence;
}

abbrev pub join_group : AccountRow → AccountAggregateRow → AccountAggregateRow
join_group a g = record g {
  total_minor_units = g.total_minor_units + a.balance_minor_units;
  as_of_sequence = max g.as_of_sequence a.as_of_sequence;
}

-- One account into its group.
unfoldable pub aggregate_account : AccountRow → List AccountAggregateRow → List AccountAggregateRow
aggregate_account a [] = group_of a ∷ []
aggregate_account a (g ∷ gs) =
    let rest = aggregate_account a gs in if in_group a g then join_group a g ∷ gs else g ∷ rest

-- `GROUP BY entity_id, currency`
unfoldable pub aggregate : List AccountRow → List AccountAggregateRow
aggregate [] = []
aggregate (a ∷ accounts) = aggregate_account a (aggregate accounts)

abbrev pub max_int64 : ℕ
max_int64 = 9223372036854775807

-- SUM fails above 64 bits, and the driver refuses to read an integer that a number cannot hold.
abbrev pub read_total : ℕ → Result ℕ
read_total total = if ltb max_int64 total then err sql_error else to_sql_integer total

unfoldable pub read_groups : List AccountAggregateRow → Result (List AccountAggregateRow)
read_groups [] = ok []
read_groups (g ∷ gs) = do
  total ← read_total g.total_minor_units
  rest ← read_groups gs
  ok (record g { total_minor_units = total } ∷ rest)

abbrev pub cash_position_row : AccountAggregateRow → CashPositionRow
cash_position_row g = record {
  entity_id = g.entity_id;
  currency = g.currency;
  total_minor_units = g.total_minor_units;
  default_currency = g.default_currency;
  default_total_minor_units = g.default_total_minor_units;
  default_currency_snapshot_id = g.default_currency_snapshot_id;
  pending_delta_minor_units = 0;
  as_of_sequence = g.as_of_sequence;
}

-- PRIMARY KEY (entity_id, currency)
abbrev pub same_position : CashPositionRow → CashPositionRow → Bool
same_position new c = text_eq c.entity_id new.entity_id && text_eq c.currency new.currency

unfoldable pub insert_cash_position : CashPositionRow → ProjectionsDb → Result ProjectionsDb
insert_cash_position new p =
    if any (same_position new) p.proj_cash_position
    then err sql_error
    else ok (record p { proj_cash_position = new ∷ p.proj_cash_position })

unfoldable pub insert_positions : List AccountAggregateRow → ProjectionsDb → Result ProjectionsDb
insert_positions [] p = ok p
insert_positions (g ∷ gs) p = insert_cash_position (cash_position_row g) p >>= insert_positions gs

abbrev pub open_accounts : List AccountRow → List AccountRow
open_accounts = filter_by (λ a. not (is_closed a.status))

unfoldable pub rebuild_cash_position : ProjectionsDb → Result ProjectionsDb
rebuild_cash_position p = do
  rows ← read_groups (aggregate (open_accounts p.proj_accounts))
  insert_positions rows (record p { proj_cash_position = [] })
