-- ===== src/Projections/Frame.antt =====
-- What each statement of server/src/projections/worker.ts does to the one table that it writes.
use vorcaro_ledger.Prelude.{
  true, false, ◌&&◌, List, [], ◌∷◌, Text, text_eq, any, update_where, if◌then◌else◌, ◌≡◌, refl,
  arith, inl, inr, Bool-cases,
}
use vorcaro_ledger.Prelude.Int.{ℤ}
use vorcaro_ledger.Protocol.Types.{
  EventStatus, EventType, event_type_eq, ObjectType, object_type_eq,
}
use vorcaro_ledger.Protocol.Result.{Result, ok, err, sql_error, Result-cases, ◌>>=◌}
use vorcaro_ledger.Database.Tables.{ConflictRow}
use vorcaro_ledger.Projections.Tables.{
  ProjectionsDb, AccountStatus, AccountRow, CashPositionRow, OpenConflictRow,
}
use vorcaro_ledger.Projections.Statements.{
  LedgerEvent, event_status_eq, parse_policy_metadata, new_account, is_account, insert_or_replace,
  upsert_account, set_account_status, set_conflicted, clear_projection_conflict, apply_event,
  apply_events, insert_open_conflict, mark_conflicted, open_conflict_row, sync_each,
}
use vorcaro_ledger.Projections.Cash.{
  AccountAggregateRow, cash_position_row, same_position, insert_cash_position, insert_positions,
}

abbrev pub map_ok : {A B : Type 0} → (A → B) → Result A → Result B
map_ok f r = r >>= λ a. ok (f a)

abbrev pub with_accounts : ProjectionsDb → List AccountRow → ProjectionsDb
with_accounts p accounts = record p { proj_accounts = accounts }

module _ (big_int : Text → Result ℤ) where
  -- `applyEvent` on the accounts.
  unfoldable pub apply_accounts : LedgerEvent → List AccountRow → Result (List AccountRow)
  apply_accounts event accounts =
      let accepted = event_status_eq event.status EventStatus.accepted in
      if event_type_eq event.event_type EventType.account_created && accepted
      then map_ok (λ metadata. insert_or_replace (new_account event metadata) accounts)
          (parse_policy_metadata big_int event.policy_metadata)
      else if event_type_eq event.event_type EventType.account_closed && accepted
      then ok (
          update_where (is_account event.object_id)
            (λ a. record a {
              status = AccountStatus.closed;
              as_of_sequence = event.server_sequence;
            })
            accounts)
      else if event_type_eq event.event_type EventType.conflict_resolved
          && accepted
          && object_type_eq event.object_type ObjectType.account
      then ok (update_where (is_account event.object_id) (set_conflicted false) accounts)
      else ok accounts

  apply_event-Frame :
      (event : LedgerEvent) (p : ProjectionsDb)
      → apply_event big_int event p
        ≡ map_ok (with_accounts p) (apply_accounts event p.proj_accounts)
  unfolding apply_event apply_accounts upsert_account set_account_status clear_projection_conflict
  apply_event-Frame event p = ground arith

  unfoldable pub apply_all_accounts : List LedgerEvent → List AccountRow → Result (List AccountRow)
  apply_all_accounts [] accounts = ok accounts
  apply_all_accounts (event ∷ events) accounts =
      apply_accounts event accounts >>= apply_all_accounts events

  pub apply_events-Frame :
      (events : List LedgerEvent) (p : ProjectionsDb)
      → apply_events big_int events p
        ≡ map_ok (with_accounts p) (apply_all_accounts events p.proj_accounts)
  unfolding apply_events apply_all_accounts
  apply_events-Frame [] p = refl
  apply_events-Frame (event ∷ events) p =
      elim (Result-cases (apply_accounts event p.proj_accounts)) [
        | inl (accounts, is) ↦
            rw (apply_event-Frame event p, is)
              (apply_events-Frame events (with_accounts p accounts))
        | inr (e, threw) ↦ rw (apply_event-Frame event p, threw) refl
      ]

-- `syncOpenConflicts` on its two tables.
unfoldable pub mark_all : List ConflictRow → List AccountRow → List AccountRow
mark_all [] accounts = accounts
mark_all (conflict ∷ conflicts) accounts =
    let marked = update_where (is_account conflict.object_id) (set_conflicted true) accounts in
    mark_all conflicts
      (if object_type_eq conflict.object_type ObjectType.account then marked else accounts)

unfoldable pub insert_all : List ConflictRow → List OpenConflictRow → Result (List OpenConflictRow)
insert_all [] rows = ok rows
insert_all (conflict ∷ conflicts) rows =
    let rest = insert_all conflicts (open_conflict_row conflict ∷ rows) in
    if any (λ (c : OpenConflictRow). text_eq c.conflict_id conflict.id) rows
    then err sql_error
    else rest

abbrev pub with_conflicts : List AccountRow → ProjectionsDb → List OpenConflictRow → ProjectionsDb
with_conflicts accounts p rows = record p { proj_accounts = accounts; proj_conflicts_open = rows }

pub sync_each-Frame :
    (conflicts : List ConflictRow) (p : ProjectionsDb)
    → sync_each conflicts p
      ≡ map_ok
          (with_conflicts (mark_all conflicts p.proj_accounts) p)
          (insert_all conflicts p.proj_conflicts_open)
unfolding sync_each mark_all insert_all insert_open_conflict mark_conflicted
sync_each-Frame [] p = refl
sync_each-Frame (conflict ∷ conflicts) p =
    let new = record p {
      proj_conflicts_open = open_conflict_row conflict ∷ p.proj_conflicts_open;
    } in
    elim (Bool-cases
      (any (λ (c : OpenConflictRow). text_eq c.conflict_id conflict.id) p.proj_conflicts_open)) [
        | inl seen ↦ rw seen refl
        | inr fresh ↦
            rw fresh (elim (Bool-cases (object_type_eq conflict.object_type ObjectType.account)) [
              | inl account ↦ rw account (
                  sync_each-Frame conflicts (
                    with_accounts new (
                      update_where (is_account conflict.object_id) (set_conflicted true)
                        p.proj_accounts)))
              | inr other ↦ rw other (sync_each-Frame conflicts new)
            ])
      ]

-- `INSERT INTO proj_cash_position`, for each group.
unfoldable pub insert_rows :
    List AccountAggregateRow → List CashPositionRow → Result (List CashPositionRow)
insert_rows [] rows = ok rows
insert_rows (g ∷ gs) rows =
    let rest = insert_rows gs (cash_position_row g ∷ rows) in
    if any (same_position (cash_position_row g)) rows then err sql_error else rest

abbrev pub with_cash : ProjectionsDb → List CashPositionRow → ProjectionsDb
with_cash p rows = record p { proj_cash_position = rows }

pub insert_positions-Frame :
    (gs : List AccountAggregateRow) (p : ProjectionsDb)
    → insert_positions gs p ≡ map_ok (with_cash p) (insert_rows gs p.proj_cash_position)
unfolding insert_positions insert_rows insert_cash_position
insert_positions-Frame [] p = refl
insert_positions-Frame (g ∷ gs) p =
    elim (Bool-cases (any (same_position (cash_position_row g)) p.proj_cash_position)) [
      | inl seen ↦ rw seen refl
      | inr new ↦
          rw new
            (insert_positions-Frame gs (with_cash p (cash_position_row g ∷ p.proj_cash_position)))
    ]
