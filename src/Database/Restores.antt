-- ===== src/Database/Restores.antt =====
-- A method that throws leaves the database as it was: where reads come first and the rest is one
-- transaction.
use vorcaro_ledger.Prelude.{◌≡◌, refl}
use vorcaro_ledger.Protocol.Result.{Result, ok, err, Thrown}
use vorcaro_ledger.Database.Tables.{Db}
use vorcaro_ledger.Database.Action.{Action, transaction, transaction-err, ◌>>=◌}

pub record Restores {A : Type 0} (m : Action A) : Type 0 where
  pub at : (db : Db) (e : Thrown) → (m db).0 ≡ err e → (m db).1 ≡ db

pub Restores-transaction : {A : Type 0} (m : Action A) → Restores (transaction m)
Restores-transaction m = record { at = λ db e. transaction-err m db }

after_read :
    {A B : Type 0} (f : A → Action B)
    → ((a : A) → Restores (f a))
    → (r : Result A) (db : Db) (e : Thrown) → (((λ db. (r, db)) >>= f) db).0 ≡ err e
    → (((λ db. (r, db)) >>= f) db).1 ≡ db
unfolding ◌>>=◌
after_read f restores (ok a) db e h = (restores a).at db e h
after_read f restores (err thrown) db e h = refl

pub Restores-read :
    {A B : Type 0} (g : Db → Result A) {f : A → Action B}
    → ((a : A) → Restores (f a))
    → Restores ((λ db. (g db, db)) >>= f)
unfolding ◌>>=◌
Restores-read g {f} restores = record { at = λ db. after_read f restores (g db) db }
