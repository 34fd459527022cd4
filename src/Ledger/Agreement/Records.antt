-- ===== src/Ledger/Agreement/Records.antt =====
-- The open conflicts under each statement.
use vorcaro_ledger.Prelude.{
  true, false, some, inl, inr, List, [], ◌∷◌, map, Text, text_eq, text_eq_iff, text_eq_refl, ◌≡◌,
  refl, subst, arith, find, any, update_where, apply_where, find-update_where, any-find,
  any-find-some, is_defined, if◌then◌else◌, is_yes_iff, Bool-cases,
}
use vorcaro_ledger.Protocol.Types.{ObjectType, ObjectType-discrete}
use vorcaro_ledger.Protocol.Result.{ok}
use vorcaro_ledger.Database.Tables.{Db, ConflictRow, resolved, open_conflict}
use vorcaro_ledger.Database.Select.{find_open_conflict, open_at}
use vorcaro_ledger.Database.Insert.{
  conflict_clashes, set_conflict_events, close_conflict, insert_conflict,
}
use vorcaro_ledger.Ledger.Agreement.{NoClash}
use vorcaro_ledger.Ledger.Agreement.Heads.{same_object, same_object_comm, text_eq_comm}

-- A conflict that is open at one object is open at another just if they are the same object.
same_object_conflict :
    (t u : ObjectType) (id key : Text) (c : ConflictRow)
    → open_at t id c ≡ true
    → open_at u key c ≡ same_object t id u key
same_object_conflict t u id key c here =
    let type : c.object_type ≡ t =
      (is_yes_iff (ObjectType-discrete c.object_type t)).0 (ground arith) in
    let name : c.object_id ≡ id = (text_eq_iff c.object_id id).0 (ground arith) in
    rw (type, name) (ground arith)

-- An update that makes no clash keeps the table free of clashes.
module _ (g : ConflictRow → ConflictRow)
    (harmless : (c d : ConflictRow)
      → conflict_clashes c d ≡ false
      → conflict_clashes (g c) (g d) ≡ false) where
  no_clash_with :
      (c : ConflictRow) (cs : List ConflictRow)
      → any (conflict_clashes c) cs ≡ false
      → any (conflict_clashes (g c)) (map g cs) ≡ false
  unfolding any
  no_clash_with c [] h = refl
  no_clash_with c (d ∷ ds) h = ground (arith, harmless c d, no_clash_with c ds)

  NoClash-map : (cs : List ConflictRow) → NoClash cs → NoClash (map g cs)
  NoClash-map [] h = tt
  NoClash-map (c ∷ cs) h = (no_clash_with c cs h.0, NoClash-map cs h.1)

module _ (id : Text) (event_ids : List Text) (db : Db) where
  pub set_conflict_events-open :
      (u : ObjectType) (key : Text)
      → is_defined (find_open_conflict u key (set_conflict_events id event_ids db))
        ≡ is_defined (find_open_conflict u key db)
  unfolding find_open_conflict set_conflict_events
  set_conflict_events-open u key =
      rw
        (find-update_where (open_at u key) (λ c. text_eq c.id id)
          (λ c. record c { event_ids = event_ids }) (λ c. refl) db.conflicts)
        (ground arith)

  pub set_conflict_events-NoClash :
      NoClash db.conflicts → NoClash (set_conflict_events id event_ids db).conflicts
  unfolding set_conflict_events update_where
  set_conflict_events-NoClash =
      NoClash-map (apply_where (λ c. text_eq c.id id) (λ c. record c { event_ids = event_ids }))
        (λ c d h. ground arith) db.conflicts

module _ (event_id now : Text) where
  abbrev closed : ConflictRow → ConflictRow
  closed c = record c {
    status = resolved;
    resolution_event_id = some event_id;
    resolved_at = some now;
  }

  abbrev close_by : Text → List ConflictRow → List ConflictRow
  close_by id = update_where (λ c. text_eq c.id id) closed

  -- Closing an id that no row has changes nothing.
  close_absent :
      (x : ConflictRow) (cs : List ConflictRow)
      → any (conflict_clashes x) cs ≡ false
      → close_by x.id cs ≡ cs
  unfolding update_where any
  close_absent x [] h = refl
  close_absent x (d ∷ ds) h = ground (arith, close_absent x ds)

  -- No other row is open at the object of an open one.
  no_second :
      (t : ObjectType) (id : Text) (x : ConflictRow) (cs : List ConflictRow)
      → open_at t id x ≡ true
      → any (conflict_clashes x) cs ≡ false
      → any (open_at t id) cs ≡ false
  unfolding any
  no_second t id x [] here h = refl
  no_second t id x (d ∷ ds) here h =
      let type : x.object_type ≡ t =
        (is_yes_iff (ObjectType-discrete x.object_type t)).0 (ground arith) in
      let name : x.object_id ≡ id = (text_eq_iff x.object_id id).0 (ground arith) in
      let rest = no_second t id x ds here in
      let at_x : open_at x.object_type x.object_id d ≡ false = ground arith in
      let at_t : open_at t id d ≡ false = rw (← type, ← name) at_x in ground arith

  module _ (t u : ObjectType) (id key : Text) where
    -- The closed conflict is the first row.
    close_first :
        (x : ConflictRow) (xs : List ConflictRow)
        → open_at t id x ≡ true
        → any (conflict_clashes x) xs ≡ false
        → is_defined (find (open_at u key) (close_by x.id (x ∷ xs)))
          ≡ (if same_object u key t id then false else is_defined (find (open_at u key) (x ∷ xs)))
    unfolding update_where find
    close_first x xs here alone =
        let rest : map (apply_where (λ c. text_eq c.id x.id) closed) xs ≡ xs =
          close_absent x xs alone in
        rw (text_eq_refl x.id, rest)
          (ground
            (arith, same_object_conflict t u id key x here, same_object_comm t u id key, none_left))
      where
        none_left : same_object u key t id ≡ true → is_defined (find (open_at u key) xs) ≡ false
        none_left same =
            let type : u ≡ t = (is_yes_iff (ObjectType-discrete u t)).0 (ground arith) in
            let name : key ≡ id = (text_eq_iff key id).0 (ground arith) in
            rw (type, name, ← any-find (open_at t id) xs) (no_second t id x xs here alone)

    -- Closing the open conflict of one object closes that one and no other.
    close_found :
        (c : ConflictRow) (cs : List ConflictRow)
        → NoClash cs
        → find (open_at t id) cs ≡ some c
        → is_defined (find (open_at u key) (close_by c.id cs))
          ≡ (if same_object u key t id then false else is_defined (find (open_at u key) cs))
    unfolding update_where find
    close_found c [] clean h = absurd (cc)
    close_found c (x ∷ xs) clean h = elim (Bool-cases (open_at t id x)) [
      | inl here ↦
          let is_first : x ≡ c = ground arith in
          subst
            (λ (d : ConflictRow). is_defined (find (open_at u key) (close_by d.id (x ∷ xs))) ≡ (
              if same_object u key t id then false else is_defined (find (open_at u key) (x ∷ xs))))
            is_first (close_first x xs here clean.0)
      | inr elsewhere ↦
          let behind : find (open_at t id) xs ≡ some c = ground arith in
          let other : conflict_clashes x c ≡ false =
            any-find-some (conflict_clashes x) (open_at t id) xs c clean.0 behind in
          ground (arith, close_found c xs clean.1 behind, text_eq_comm x.id c.id, same_here x)
    ]
      where
        same_here :
            (x : ConflictRow) → same_object u key t id ≡ true → open_at u key x ≡ open_at t id x
        same_here x same =
            let type : u ≡ t = (is_yes_iff (ObjectType-discrete u t)).0 (ground arith) in
            let name : key ≡ id = (text_eq_iff key id).0 (ground arith) in rw (type, name)

module _ (event_id now : Text) (t : ObjectType) (id : Text) (c : ConflictRow) (db : Db) where
  pub close_conflict-open :
      NoClash db.conflicts
      → find_open_conflict t id db ≡ some c
      → (u : ObjectType) (key : Text)
      → is_defined (find_open_conflict u key (close_conflict c.id event_id now db))
        ≡ (if same_object u key t id then false else is_defined (find_open_conflict u key db))
  unfolding find_open_conflict close_conflict
  close_conflict-open clean here u key =
      close_found event_id now t u id key c db.conflicts clean here

  pub close_conflict-NoClash :
      NoClash db.conflicts → NoClash (close_conflict c.id event_id now db).conflicts
  unfolding close_conflict update_where
  close_conflict-NoClash =
      NoClash-map (apply_where (λ d. text_eq d.id c.id) (closed event_id now))
        (λ x y h. ground arith) db.conflicts

module _ (new : ConflictRow) (db : Db) (db' : Db) (added : insert_conflict new db ≡ ok db') where
  pub insert_conflict-open :
      new.status ≡ open_conflict
      → (u : ObjectType) (key : Text)
      → is_defined (find_open_conflict u key db') ≡ (
          if same_object u key new.object_type new.object_id
          then true
          else is_defined (find_open_conflict u key db))
  unfolding find_open_conflict insert_conflict find
  insert_conflict-open is u key =
      ground (arith, same_object_comm u new.object_type key new.object_id)

  pub insert_conflict-NoClash : NoClash db.conflicts → NoClash db'.conflicts
  unfolding insert_conflict
  insert_conflict-NoClash clean =
      let rows : db'.conflicts ≡ new ∷ db.conflicts = ground arith in rw rows (ground arith, clean)
