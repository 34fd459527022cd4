-- ===== src/Projections/Statements.antt =====
-- The statements of server/src/projections/worker.ts that follow single events and conflicts.
use mathlib.Core.Option
use vorcaro_ledger.Prelude.{
  ℕ, Bool, true, false, not, ◌&&◌, Option, none, some, List, [], ◌∷◌, map, Text, codes, text_eq,
  any, filter_by, update_where, leb, is_yes, if◌then◌else◌,
}
use vorcaro_ledger.Prelude.Int.{ℤ}
use vorcaro_ledger.Prelude.Sort.{sort}
use vorcaro_ledger.Protocol.Types.{
  EventStatus, EventStatus-discrete, EventType, event_type_eq, ObjectType, object_type_eq,
}
use vorcaro_ledger.Protocol.Result.{Result, ok, err, sql_error, ◌>>=◌}
use vorcaro_ledger.Database.Tables.{Db, StoredMetadata, ConflictRow, is_open}
use vorcaro_ledger.Projections.Tables.{ProjectionsDb, AccountStatus, AccountRow, OpenConflictRow}

-- A row that `readLedgerEventsAfter` selects.
pub record LedgerEvent : Type 0 where
  pub id : Text
  pub server_sequence : ℕ
  pub event_type : EventType
  pub object_type : ObjectType
  pub object_id : Text
  pub policy_metadata : StoredMetadata
  pub status : EventStatus
  pub server_timestamp : Text

pub record ParsedMetadata : Type 0 where
  pub account_id : Option Text
  pub entity_id : Option Text
  pub currency : Option Text
  pub transaction_currency : Option Text
  pub exchange_rate : Option Text
  pub default_currency_snapshot_id : Option Text
  pub local_rate : Option ℤ

-- `===` on the statuses
abbrev pub event_status_eq : EventStatus → EventStatus → Bool
event_status_eq a b = is_yes (EventStatus-discrete a b)

abbrev pub new_account : LedgerEvent → ParsedMetadata → AccountRow
new_account event metadata = record {
  account_id = Option.get_or metadata.account_id event.object_id;
  entity_id = Option.get_or metadata.entity_id (codes "unknown");
  name = Option.get_or metadata.account_id event.object_id;
  account_type = codes "checking";
  institution_name = codes "unknown";
  account_number_masked = codes "unknown";
  currency = Option.get_or metadata.currency (codes "USD");
  balance_minor_units = 0;
  as_of_sequence = event.server_sequence;
  status = AccountStatus.active;
  conflicted = false;
}

abbrev pub is_account : Text → AccountRow → Bool
is_account account_id a = text_eq a.account_id account_id

-- The `DO UPDATE` of an account that is there.
abbrev pub replace_account : AccountRow → AccountRow → AccountRow
replace_account excluded a = record a {
  entity_id = excluded.entity_id;
  currency = excluded.currency;
  as_of_sequence = excluded.as_of_sequence;
  status = excluded.status;
  conflicted = excluded.conflicted;
}

unfoldable pub insert_or_replace : AccountRow → List AccountRow → List AccountRow
insert_or_replace new accounts =
    if any (is_account new.account_id) accounts
    then update_where (is_account new.account_id) (replace_account new) accounts
    else new ∷ accounts

unfoldable pub set_account_status : Text → AccountStatus → ℕ → ProjectionsDb → ProjectionsDb
set_account_status account_id status as_of_sequence p = record p {
  proj_accounts =
      update_where (is_account account_id)
        (λ a. record a { status = status; as_of_sequence = as_of_sequence }) p.proj_accounts;
}

abbrev pub set_conflicted : Bool → AccountRow → AccountRow
set_conflicted conflicted a = record a { conflicted = conflicted }

unfoldable pub clear_projection_conflict : ObjectType → Text → ProjectionsDb → ProjectionsDb
clear_projection_conflict object_type object_id p =
    if not (object_type_eq object_type ObjectType.account) then p else record p {
      proj_accounts = update_where (is_account object_id) (set_conflicted false) p.proj_accounts;
    }

-- `big_int` is JavaScript's `BigInt` on a text, which throws on one that is no integer.
module _ (big_int : Text → Result ℤ) where
  abbrev read_rate : Option Text → Result (Option ℤ)
  read_rate none = ok none
  read_rate (some text) = do rate ← big_int text; ok (some rate)

  unfoldable pub parse_policy_metadata : StoredMetadata → Result ParsedMetadata
  parse_policy_metadata parsed = do
    rate ← read_rate parsed.local_rate
    ok (record {
      account_id = parsed.account_id;
      entity_id = parsed.entity_id;
      currency = parsed.currency;
      transaction_currency = parsed.transaction_currency;
      exchange_rate = parsed.exchange_rate;
      default_currency_snapshot_id = parsed.default_currency_snapshot_id;
      local_rate = rate;
    })

  unfoldable pub upsert_account : LedgerEvent → ProjectionsDb → Result ProjectionsDb
  upsert_account event p = do
    metadata ← parse_policy_metadata event.policy_metadata
    ok (record p { proj_accounts = insert_or_replace (new_account event metadata) p.proj_accounts })

  unfoldable pub apply_event : LedgerEvent → ProjectionsDb → Result ProjectionsDb
  apply_event event p =
      let accepted = event_status_eq event.status EventStatus.accepted in
      if not accepted && not (event_status_eq event.status EventStatus.conflicted)
      then ok p
      else if event_type_eq event.event_type EventType.account_created && accepted
      then upsert_account event p
      else if event_type_eq event.event_type EventType.account_closed && accepted
      then ok (set_account_status event.object_id AccountStatus.closed event.server_sequence p)
      else if event_type_eq event.event_type EventType.conflict_resolved && accepted
      then ok (clear_projection_conflict event.object_type event.object_id p)
      else ok p

  unfoldable pub apply_events : List LedgerEvent → ProjectionsDb → Result ProjectionsDb
  apply_events [] p = ok p
  apply_events (event ∷ events) p = apply_event event p >>= apply_events events

-- PRIMARY KEY (conflict_id)
unfoldable pub insert_open_conflict : OpenConflictRow → ProjectionsDb → Result ProjectionsDb
insert_open_conflict new p =
    if any (λ c. text_eq c.conflict_id new.conflict_id) p.proj_conflicts_open
    then err sql_error
    else ok (record p { proj_conflicts_open = new ∷ p.proj_conflicts_open })

unfoldable pub mark_conflicted : ConflictRow → ProjectionsDb → ProjectionsDb
mark_conflicted conflict p =
    if object_type_eq conflict.object_type ObjectType.account
    then record p {
      proj_accounts =
          update_where (is_account conflict.object_id) (set_conflicted true) p.proj_accounts;
    }
    else p

abbrev pub open_conflict_row : ConflictRow → OpenConflictRow
open_conflict_row conflict = record {
  conflict_id = conflict.id;
  object_type = conflict.object_type;
  object_id = conflict.object_id;
  event_ids = conflict.event_ids;
  detected_at_sequence = conflict.detected_at_sequence;
}

unfoldable pub sync_each : List ConflictRow → ProjectionsDb → Result ProjectionsDb
sync_each [] p = ok p
sync_each (conflict ∷ conflicts) p = insert_open_conflict (open_conflict_row conflict) p >>= λ p.
    sync_each conflicts (mark_conflicted conflict p)

unfoldable pub open_conflicts : Db → List ConflictRow
open_conflicts ledger =
    sort (λ x y. leb x.detected_at_sequence y.detected_at_sequence)
      (filter_by (λ c. is_open c.status) ledger.conflicts)

-- `DELETE FROM proj_conflicts_open` and `UPDATE proj_accounts SET conflicted = 0`
unfoldable pub clear_conflicts : ProjectionsDb → ProjectionsDb
clear_conflicts p = record p {
  proj_conflicts_open = [];
  proj_accounts = map (set_conflicted false) p.proj_accounts;
}

unfoldable pub sync_open_conflicts : Db → ProjectionsDb → Result ProjectionsDb
sync_open_conflicts ledger p = sync_each (open_conflicts ledger) (clear_conflicts p)

-- `INSERT INTO proj_meta … ON CONFLICT(key) DO UPDATE`
unfoldable pub set_meta : Text → ℕ → ProjectionsDb → ProjectionsDb
set_meta key value p = record p {
  proj_meta =
      if any (λ m. text_eq m.key key) p.proj_meta
      then update_where (λ m. text_eq m.key key) (λ m. record m { value = value }) p.proj_meta
      else record { key = key; value = value } ∷ p.proj_meta;
}
