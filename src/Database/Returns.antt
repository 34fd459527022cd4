-- ===== src/Database/Returns.antt =====
-- What a method that returns has done: one lemma for each first step of a chain.
use vorcaro_ledger.Prelude.{refl, ◌≡◌}
use vorcaro_ledger.Protocol.Result.{Result, ok, err}
use vorcaro_ledger.Database.Tables.{Db}
use vorcaro_ledger.Database.Action.{
  Action, pure, gets, modify, attempt, transaction, after_commit, ◌>>=◌,
}

-- The method returns `a` and leaves `db'`.
pub record Returns {A : Type 0} (m : Action A) (db : Db) (a : A) (db' : Db) : Type 0 where
  pub value : (m db).0 ≡ ok a
  pub state : (m db).1 ≡ db'

module _ {A B : Type 0} (f : A → Action B) (b : B) (db db' : Db) where
  settled :
      (r : Result A × Db)
      → Returns ((λ _. r) >>= f) db b db'
      → (a : A) × (r.0 ≡ ok a) × Returns (f a) r.1 b db'
  unfolding ◌>>=◌
  settled (ok a, db1) h = (a, refl, record { value = h.value; state = h.state })
  settled (err e, db1) h = absurd (let v = h.value in cc)

  pub bind-Returns :
      (m : Action A)
      → Returns (m >>= f) db b db'
      → (a : A) × ((m db).0 ≡ ok a) × Returns (f a) (m db).1 b db'
  unfolding ◌>>=◌
  bind-Returns m h = settled (m db) (record { value = h.value; state = h.state })

-- A read that may throw, and `lift` of a result.
pub read-Returns :
    {A B : Type 0} (g : Db → Result A) (f : A → Action B) {b : B} {db db' : Db}
    → Returns ((λ db. (g db, db)) >>= f) db b db'
    → (a : A) × (g db ≡ ok a) × Returns (f a) db b db'
read-Returns g f {b} {db} {db'} h = bind-Returns f b db db' (λ db. (g db, db)) h

pub gets-Returns :
    {A B : Type 0} (g : Db → A) (f : A → Action B) {b : B} {db db' : Db}
    → Returns (gets g >>= f) db b db'
    → Returns (f (g db)) db b db'
unfolding ◌>>=◌
gets-Returns g f h = record { value = h.value; state = h.state }

pub modify-Returns :
    {B : Type 0} (g : Db → Db) (f : Unit {0} → Action B) {b : B} {db db' : Db}
    → Returns (modify g >>= f) db b db'
    → Returns (f tt) (g db) b db'
unfolding ◌>>=◌
modify-Returns g f h = record { value = h.value; state = h.state }

attempted :
    {B : Type 0} (r : Result Db) (f : Unit {0} → Action B) (b : B) (db db' : Db)
    → Returns (attempt (λ _. r) >>= f) db b db'
    → (db1 : Db) × (r ≡ ok db1) × Returns (f tt) db1 b db'
unfolding ◌>>=◌
attempted (ok db1) f b db db' h = (db1, refl, record { value = h.value; state = h.state })
attempted (err e) f b db db' h = absurd (let v = h.value in cc)

pub attempt-Returns :
    {B : Type 0} (g : Db → Result Db) (f : Unit {0} → Action B) {b : B} {db db' : Db}
    → Returns (attempt g >>= f) db b db'
    → (db1 : Db) × (g db ≡ ok db1) × Returns (f tt) db1 b db'
unfolding ◌>>=◌
attempt-Returns g f {b} {db} {db'} h =
    attempted (g db) f b db db' (record { value = h.value; state = h.state })

settled_after :
    {A B : Type 0} (r : Result A) (f : A → Action B) (b : B) (db db' : Db)
    → Returns (after_commit (λ _. r) >>= f) db b db'
    → (a : A) × (r ≡ ok a) × Returns (f a) db b db'
unfolding ◌>>=◌ after_commit
settled_after (ok a) f b db db' h = (a, refl, record { value = h.value; state = h.state })
settled_after (err e) f b db db' h = absurd (let v = h.value in cc)

-- A read after COMMIT.
pub after_commit-Returns :
    {A B : Type 0} (g : Db → Result A) (f : A → Action B) {b : B} {db db' : Db}
    → Returns (after_commit g >>= f) db b db'
    → (a : A) × (g db ≡ ok a) × Returns (f a) db b db'
unfolding ◌>>=◌ after_commit
after_commit-Returns g f {b} {db} {db'} h =
    settled_after (g db) f b db db' (record { value = h.value; state = h.state })

kept :
    {A : Type 0} (r : Result A × Db) (a : A) (db db' : Db)
    → Returns (transaction (λ _. r)) db a db'
    → (r.0 ≡ ok a) × (r.1 ≡ db')
unfolding transaction
kept (ok x, db1) a db db' h = (h.value, h.state)
kept (err e, db1) a db db' h = absurd (let v = h.value in cc)

pub transaction-Returns :
    {A : Type 0} {m : Action A} {a : A} {db db' : Db}
    → Returns (transaction m) db a db'
    → Returns m db a db'
unfolding transaction
transaction-Returns {m} {a} {db} {db'} h =
    let (v, st) = kept (m db) a db db' (record { value = h.value; state = h.state }) in
    record { value = v; state = st }

pub pure-Returns :
    {A : Type 0} {x a : A} {db db' : Db} → Returns (pure x) db a db' → (x ≡ a) × (db ≡ db')
pure-Returns h = let v = h.value in (cc, h.state)
