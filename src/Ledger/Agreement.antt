-- ===== src/Ledger/Agreement.antt =====
-- The head of an object is marked as conflicted exactly while a conflict of it is open, under
-- server/src/ledger/appender.ts.
pub mod Heads
pub mod Records
pub mod Appends
use vorcaro_ledger.Prelude.{Bool, false, ◌≡◌, List, [], ◌∷◌, Text, any, is_defined}
use vorcaro_ledger.Protocol.Types.{ObjectType}
use vorcaro_ledger.Database.Tables.{Db, ConflictRow}
use vorcaro_ledger.Database.Select.{find_object_head, find_open_conflict}
use vorcaro_ledger.Database.Insert.{conflict_clashes}
use vorcaro_ledger.Ledger.Admission.{is_conflicted}

-- No two conflicts share an id, and no two open ones an object.
abbrev pub NoClash : List ConflictRow → Type 0
NoClash [] = Unit
NoClash (c ∷ cs) = (any (conflict_clashes c) cs ≡ false) × NoClash cs

pub record Agrees (db : Db) : Type 0 where
  pub marked :
      (object_type : ObjectType) (object_id : Text)
      → is_conflicted (find_object_head object_type object_id db)
        ≡ is_defined (find_open_conflict object_type object_id db)
  pub no_clash : NoClash db.conflicts
