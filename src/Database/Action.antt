-- ===== src/Database/Action.antt =====
-- A method on the database: it returns or throws, and what it has written by then stays written,
-- unless a transaction rolls it back.
use vorcaro_ledger.Prelude.{◌≡◌, arith}
use vorcaro_ledger.Protocol.Result.{Result, ok, err, Thrown, sql_error}
use vorcaro_ledger.Database.Tables.{Db}

abbrev pub Action : Type 0 → Type 0
Action A = Db → Result A × Db

module _ {A : Type 0} where
  abbrev pub pure : A → Action A
  pure a db = (ok a, db)

  abbrev pub throw : Thrown → Action A
  throw e db = (err e, db)

  abbrev pub lift : Result A → Action A
  lift r db = (r, db)

  -- A SELECT.
  abbrev pub gets : (Db → A) → Action A
  gets f db = (ok (f db), db)

abbrev pub modify : (Db → Db) → Action (Unit {0})
modify f db = (ok tt, f db)

-- A statement that may fail, and then writes nothing.
abbrev pub attempt : (Db → Result Db) → Action (Unit {0})
attempt f db = elim (f db) [ ok db' ↦ (ok tt, db') | err e ↦ (err e, db) ]

infixl 5 ◌>>=◌ ◌>>◌
unfoldable pub ◌>>=◌ : {A B : Type 0} → Action A → (A → Action B) → Action B
◌>>=◌ m f db = let (r, db') = m db in elim r [ ok a ↦ f a db' | err e ↦ (err e, db') ]

abbrev pub ◌>>◌ : {A B : Type 0} → Action A → Action B → Action B
m >> k = m >>= λ _. k

rollback : {A : Type 0} → Db → Result A × Db → Result A × Db
rollback db (ok a, db') = (ok a, db')
rollback db (err e, db') = (err e, db)

-- `BEGIN IMMEDIATE; try { …; COMMIT } catch (error) { ROLLBACK; throw error }`
unfoldable pub transaction : {A : Type 0} → Action A → Action A
unfolding rollback
transaction m db = rollback db (m db)

-- A transaction that throws has changed nothing.
pub transaction-err :
    {A : Type 0} (m : Action A) (db : Db) {e : Thrown}
    → (transaction m db).0 ≡ err e
    → (transaction m db).1 ≡ db
unfolding transaction
transaction-err m db h = ground arith

-- After COMMIT, a throw runs ROLLBACK where no transaction is open; that statement fails, and its
-- error is the one thrown. What was committed stays.
unfoldable pub after_commit : {A : Type 0} → (Db → Result A) → Action A
after_commit f db = elim (f db) [ ok a ↦ (ok a, db) | err e ↦ (err sql_error, db) ]
