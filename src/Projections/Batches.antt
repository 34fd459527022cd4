-- ===== src/Projections/Batches.antt =====
-- `rebuildAll` of server/src/projections/worker.ts, batch by batch, against one run over all events.
use vorcaro_ledger.Prelude.{
  ℕ, List, [], ◌∷◌, any, find, update_where, text_eq_refl, ◌≡◌, refl, arith,
}
use vorcaro_ledger.Protocol.Result.{Result, ok, bind_ok, ◌>>=◌}
use vorcaro_ledger.Database.Tables.{Db}
use vorcaro_ledger.Projections.Tables.{
  ProjectionsDb, AccountRow, OpenConflictRow, CashPositionRow, MetaRow, empty_projections,
}
use vorcaro_ledger.Projections.Statements.{
  sync_open_conflicts, clear_conflicts, open_conflicts, set_meta,
}
use vorcaro_ledger.Projections.Cash.{read_groups, aggregate, open_accounts, rebuild_cash_position}
use vorcaro_ledger.Projections.Worker.{last_applied_key, last_applied_sequence, finish_batch}
use vorcaro_ledger.Projections.Frame.{
  with_accounts, with_conflicts, with_cash, mark_all, insert_all, insert_rows, sync_each-Frame,
  insert_positions-Frame,
}
use vorcaro_ledger.Projections.Accounts.{strip}

-- The cash position of some accounts.
abbrev pub cash_of : List AccountRow → Result (List CashPositionRow)
cash_of accounts = read_groups (aggregate (open_accounts accounts)) >>= λ gs. insert_rows gs []

abbrev pub mark_row : ℕ → MetaRow
mark_row n = record { key = last_applied_key; value = n }

-- The read model with these tables.
abbrev pub built : List AccountRow → List OpenConflictRow → List CashPositionRow → ℕ → ProjectionsDb
built accounts rows cash n = record empty_projections {
  proj_meta = mark_row n ∷ [];
  proj_accounts = accounts;
  proj_conflicts_open = rows;
  proj_cash_position = cash;
}

-- What the worker leaves alone is empty, and its mark stands alone.
pub record IsClean (p : ProjectionsDb) : Type 0 where
  pub transactions : p.proj_transactions ≡ []
  pub budget_lines : p.proj_budget_lines ≡ []
  pub approvals : p.proj_approvals_open ≡ []
  pub marked : (n : ℕ) → (set_meta last_applied_key n p).proj_meta ≡ mark_row n ∷ []

pub with_accounts-IsClean :
    (p : ProjectionsDb) (accounts : List AccountRow)
    → IsClean p
    → IsClean (with_accounts p accounts)
unfolding set_meta
with_accounts-IsClean p accounts clean = record {
  transactions = clean.transactions;
  budget_lines = clean.budget_lines;
  approvals = clean.approvals;
  marked = clean.marked;
}

pub empty_projections-IsClean : IsClean empty_projections
unfolding set_meta any
empty_projections-IsClean = record {
  transactions = refl;
  budget_lines = refl;
  approvals = refl;
  marked = λ n. refl;
}

pub built-IsClean :
    (accounts : List AccountRow) (rows : List OpenConflictRow) (cash : List CashPositionRow) (m : ℕ)
    → IsClean (built accounts rows cash m)
unfolding set_meta any update_where
built-IsClean accounts rows cash m = record {
  transactions = refl;
  budget_lines = refl;
  approvals = refl;
  marked = λ n. rw (text_eq_refl last_applied_key) refl;
}

pub last_applied_sequence-built :
    (accounts : List AccountRow) (rows : List OpenConflictRow) (cash : List CashPositionRow) (m : ℕ)
    → last_applied_sequence (built accounts rows cash m) ≡ m
unfolding last_applied_sequence find
last_applied_sequence-built accounts rows cash m = ground (arith, text_eq_refl last_applied_key)

module _ (ledger : Db) where
  abbrev pub marked_accounts : List AccountRow → List AccountRow
  marked_accounts accounts = mark_all (open_conflicts ledger) (strip accounts)

  -- What a batch leaves behind its events.
  pub finish_batch-built :
      (n : ℕ) (p : ProjectionsDb) (rows : List OpenConflictRow) (cash : List CashPositionRow)
      → IsClean p
      → insert_all (open_conflicts ledger) [] ≡ ok rows
      → cash_of (marked_accounts p.proj_accounts) ≡ ok cash
      → finish_batch ledger n p ≡ ok (built (marked_accounts p.proj_accounts) rows cash n)
  unfolding finish_batch sync_open_conflicts clear_conflicts rebuild_cash_position set_meta
  finish_batch-built n p rows cash clean inserted counted =
      let (gs, grouped, done) =
        bind_ok (read_groups (aggregate (open_accounts (marked_accounts p.proj_accounts))))
          (λ gs. insert_rows gs []) cash counted in
      let synced = with_conflicts (marked_accounts p.proj_accounts) p rows in
      rw
        (
          sync_each-Frame (open_conflicts ledger) (clear_conflicts p),
          inserted,
          grouped,
          insert_positions-Frame gs (with_cash synced []),
          done,
        )
        (clean_fields (with_cash synced cash) (record {
          transactions = clean.transactions;
          budget_lines = clean.budget_lines;
          approvals = clean.approvals;
          marked = meta;
        }))
    where
      meta :
          (n : ℕ)
          → (set_meta last_applied_key n
              (with_cash (with_conflicts (marked_accounts p.proj_accounts) p rows) cash)).proj_meta
            ≡ mark_row n ∷ []
      meta n = clean.marked n

      clean_fields :
          (q : ProjectionsDb)
          → IsClean q
          → ok (set_meta last_applied_key n q)
            ≡ ok (built q.proj_accounts q.proj_conflicts_open q.proj_cash_position n)
      clean_fields q clean =
          rw (clean.transactions, clean.budget_lines, clean.approvals, clean.marked n) refl
