-- ===== src/Projections/Tables.antt =====
-- The tables of server/migrations/projections/0001_initial.sql. The worker writes no row of
-- proj_transactions, proj_budget_lines or proj_approvals_open.
use vorcaro_ledger.Prelude.{ℕ, Bool, Option, List, [], Text}
use vorcaro_ledger.Protocol.Types.{ObjectType}

pub data AccountStatus : Type 0 where
  active closed : AccountStatus

-- The balances are natural numbers: the worker writes 0, and nothing else writes one.
pub record AccountRow : Type 0 where
  pub account_id : Text
  pub entity_id : Text
  pub name : Text
  pub account_type : Text
  pub institution_name : Text
  pub account_number_masked : Text
  pub currency : Text
  pub balance_minor_units : ℕ
  pub as_of_sequence : ℕ
  pub status : AccountStatus
  pub conflicted : Bool

pub record CashPositionRow : Type 0 where
  pub entity_id : Text
  pub currency : Text
  pub total_minor_units : ℕ
  pub default_currency : Option Text
  pub default_total_minor_units : Option ℕ
  pub default_currency_snapshot_id : Option Text
  pub pending_delta_minor_units : ℕ
  pub as_of_sequence : ℕ

pub record TransactionRow : Type 0 where
  pub transaction_id : Text
  pub account_id : Text
  pub entity_id : Text
  pub vendor_id : Option Text
  pub direction : Text
  pub amount_minor_units : ℕ
  pub currency : Text
  pub transaction_currency : Text
  pub exchange_rate : Text
  pub local_rate : ℕ
  pub default_currency : Text
  pub default_amount_minor_units : ℕ
  pub default_currency_snapshot_id : Text
  pub occurred_at : Text
  pub classification : Option Text
  pub reconciled : Bool
  pub source_event_id : Text

pub record BudgetLineRow : Type 0 where
  pub budget_id : Text
  pub category : Text
  pub amount_minor_units : ℕ
  pub currency : Text
  pub transaction_currency : Option Text
  pub exchange_rate : Option Text
  pub local_rate : Option ℕ
  pub default_currency : Option Text
  pub default_amount_minor_units : Option ℕ
  pub default_currency_snapshot_id : Option Text
  pub status : Text

pub record OpenApprovalRow : Type 0 where
  pub approval_id : Text
  pub target_object_type : Text
  pub target_object_id : Text
  pub account_id : Option Text
  pub amount_minor_units : Option ℕ
  pub currency : Option Text
  pub transaction_currency : Option Text
  pub exchange_rate : Option Text
  pub local_rate : Option ℕ
  pub default_currency : Option Text
  pub default_amount_minor_units : Option ℕ
  pub default_currency_snapshot_id : Option Text
  pub required_count : ℕ
  pub signature_count : ℕ
  pub requested_by : Text
  pub created_at : Text

pub record OpenConflictRow : Type 0 where
  pub conflict_id : Text
  pub object_type : ObjectType
  pub object_id : Text
  pub event_ids : List Text
  pub detected_at_sequence : ℕ

-- `value` is the number whose decimal text `String` wrote and `Number` reads.
pub record MetaRow : Type 0 where
  pub key : Text
  pub value : ℕ

pub record ProjectionsDb : Type 0 where
  pub proj_meta : List MetaRow
  pub proj_accounts : List AccountRow
  pub proj_cash_position : List CashPositionRow
  pub proj_transactions : List TransactionRow
  pub proj_budget_lines : List BudgetLineRow
  pub proj_approvals_open : List OpenApprovalRow
  pub proj_conflicts_open : List OpenConflictRow

-- Every table after `DELETE FROM`.
abbrev pub empty_projections : ProjectionsDb
empty_projections = record {
  proj_meta = [];
  proj_accounts = [];
  proj_cash_position = [];
  proj_transactions = [];
  proj_budget_lines = [];
  proj_approvals_open = [];
  proj_conflicts_open = [];
}
