-- ===== src/Database/Keeps.antt =====
-- What each statement of a method keeps, the method keeps, whether it returns or throws: one rule
-- for each way to build a method.
use vorcaro_ledger.Prelude.{Bool, true, false, if◌then◌else◌, refl, ◌≡◌}
use vorcaro_ledger.Protocol.Result.{Result, ok, err, Thrown}
use vorcaro_ledger.Database.Tables.{Db}
use vorcaro_ledger.Database.Action.{
  Action, pure, throw, lift, gets, modify, attempt, transaction, after_commit, ◌>>=◌,
}

-- `m` keeps `P`.
pub record Keeps {A : Type 0} (P : Db → Type 0) (m : Action A) : Type 0 where
  pub at : (db : Db) → P db → P (m db).1

module _ {A : Type 0} {P : Db → Type 0} where
  pub Keeps-pure : (a : A) → Keeps P (pure a)
  Keeps-pure a = record { at = λ db h. h }

  pub Keeps-throw : (e : Thrown) → Keeps P (throw {A = A} e)
  Keeps-throw e = record { at = λ db h. h }

  pub Keeps-lift : (r : Result A) → Keeps P (lift r)
  Keeps-lift r = record { at = λ db h. h }

  pub Keeps-gets : (f : Db → A) → Keeps P (gets f)
  Keeps-gets f = record { at = λ db h. h }

  -- A read that may throw.
  pub Keeps-read : (f : Db → Result A) → Keeps P (λ db. (f db, db))
  Keeps-read f = record { at = λ db h. h }

  pub Keeps-if : (b : Bool) (m n : Action A) → Keeps P m → Keeps P n → Keeps P (if b then m else n)
  Keeps-if true m n km kn = km
  Keeps-if false m n km kn = kn

attempted :
    (P : Db → Type 0) (r : Result Db) (db : Db)
    → P db
    → ((db' : Db) → r ≡ ok db' → P db')
    → P (attempt (λ _. r) db).1
attempted P (ok db') db h k = k db' refl
attempted P (err e) db h k = h

module _ {P : Db → Type 0} where
  pub Keeps-modify : (f : Db → Db) → ((db : Db) → P db → P (f db)) → Keeps P (modify f)
  Keeps-modify f keeps = record { at = keeps }

  pub Keeps-attempt :
      (f : Db → Result Db) → ((db db' : Db) → f db ≡ ok db' → P db → P db') → Keeps P (attempt f)
  Keeps-attempt f keeps = record {
    at = λ db h. attempted P (f db) db h (λ db' is. keeps db db' is h);
  }

module _ {A B : Type 0} (P : Db → Type 0) where
  pub settled-Keeps :
      (f : A → Action B) (r : Result A × Db) (db : Db)
      → P r.1
      → ((x : A) → P (f x r.1).1)
      → P (((λ _. r) >>= f) db).1
  unfolding ◌>>=◌
  settled-Keeps f (ok x, db') db h k = k x
  settled-Keeps f (err e, db') db h k = h

pub Keeps-bind :
    {A B : Type 0} {P : Db → Type 0} {m : Action A} {f : A → Action B}
    → Keeps P m
    → ((x : A) → Keeps P (f x))
    → Keeps P (m >>= f)
unfolding ◌>>=◌
Keeps-bind {P} {m} {f} km kf = record {
  at = λ db h. settled-Keeps P f (m db) db (km.at db h) (λ x. (kf x).at (m db).1 (km.at db h));
}

module _ {A : Type 0} (P : Db → Type 0) where
  rolled_back : (r : Result A × Db) (db : Db) → P db → P r.1 → P (transaction (λ _. r) db).1
  unfolding transaction
  rolled_back (ok x, db') db h k = k
  rolled_back (err e, db') db h k = h

  committed : (r : Result A) (db : Db) → P db → P (after_commit (λ _. r) db).1
  unfolding after_commit
  committed (ok x) db h = h
  committed (err e) db h = h

module _ {A : Type 0} {P : Db → Type 0} where
  pub Keeps-transaction : {m : Action A} → Keeps P m → Keeps P (transaction m)
  unfolding transaction
  Keeps-transaction {m} km = record { at = λ db h. rolled_back P (m db) db h (km.at db h) }

  pub Keeps-after_commit : (f : Db → Result A) → Keeps P (after_commit f)
  unfolding after_commit
  Keeps-after_commit f = record { at = λ db. committed P (f db) db }

pub ruleset keeps_rules = (
  Keeps-pure, Keeps-throw, Keeps-lift, Keeps-gets, Keeps-read, Keeps-if, Keeps-bind,
  Keeps-transaction, Keeps-after_commit,
)
