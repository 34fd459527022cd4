-- ===== src/Ledger/Agreement/Heads.antt =====
-- The conflict marks of the object heads under each statement.
use vorcaro_ledger.Prelude.{
  ℕ, Bool, true, false, ◌&&◌, Option, none, some, Option-cases, inl, inr, List, Text, text_eq,
  text_eq_iff, ◌≡◌, ◌∙◌, refl, sym, fun_ext, is_yes_iff', arith, find, any, update_where,
  find-update_where, find-some, any-find, is_defined, if◌then◌else◌, is_yes_iff, Bool-cases,
}
use vorcaro_ledger.Protocol.Types.{ObjectType, object_type_eq, ObjectType-discrete}
use vorcaro_ledger.Database.Tables.{Db, ObjectHeadRow}
use vorcaro_ledger.Database.Select.{find_object_head, at_object}
use vorcaro_ledger.Database.Insert.{accept_head, conflict_head, resolve_head, upsert}
use vorcaro_ledger.Ledger.Admission.{is_conflicted}

abbrev pub same_object : ObjectType → Text → ObjectType → Text → Bool
same_object t id u key = object_type_eq t u && text_eq id key

module _ (t u : ObjectType) (id key : Text) where
  -- A row of one object is a row of the other just if they are the same object.
  pub same_object_row :
      (h : ObjectHeadRow) → at_object t id h ≡ true → at_object u key h ≡ same_object t id u key
  same_object_row h here =
      let type : h.object_type ≡ t =
        (is_yes_iff (ObjectType-discrete h.object_type t)).0 (ground arith) in
      let name : h.object_id ≡ id = (text_eq_iff h.object_id id).0 (ground arith) in rw (type, name)

module _ (f : ObjectHeadRow → ObjectHeadRow) (mark : Bool) (t u : ObjectType) (id key : Text) where
  -- An update of one object's rows, which sets their mark.
  update_marks :
      ((h : ObjectHeadRow) → at_object u key (f h) ≡ at_object u key h)
      → ((h : ObjectHeadRow) → (f h).conflicted ≡ mark)
      → (heads : List ObjectHeadRow)
      → is_conflicted (find (at_object u key) (update_where (at_object t id) f heads)) ≡ (
          if same_object u key t id && is_defined (find (at_object u key) heads)
          then mark
          else is_conflicted (find (at_object u key) heads))
  unfolding is_conflicted
  update_marks keeps sets heads =
      rw (find-update_where (at_object u key) (at_object t id) f keeps heads)
        (elim (Option-cases (find (at_object u key) heads)) [
          | inl missing ↦ rw missing (ground arith)
          | inr (h, here) ↦
              let row = same_object_row u t key id h (find-some (at_object u key) heads h here) in
              rw here (ground (arith, sets h))
        ])

pub text_eq_comm : (s t : Text) → text_eq s t ≡ text_eq t s
text_eq_comm s t = ground (arith, text_eq_iff s t, text_eq_iff t s)

pub same_object_comm :
    (t u : ObjectType) (id key : Text) → same_object t id u key ≡ same_object u key t id
same_object_comm t u id key = rw (
  is_yes_iff' (ObjectType-discrete t u) (ObjectType-discrete u t) (λ e. sym e, λ e. sym e),
  text_eq_comm id key,
)

-- The same object has the same rows.
same_object-rows :
    (t u : ObjectType) (id key : Text)
    → same_object u key t id ≡ true
    → (h : ObjectHeadRow) → at_object u key h ≡ at_object t id h
same_object-rows t u id key same h =
    let type : u ≡ t = (is_yes_iff (ObjectType-discrete u t)).0 (ground arith) in
    let name : key ≡ id = (text_eq_iff key id).0 (ground arith) in rw (type, name)

module _ (t u : ObjectType) (id key : Text) (heads : List ObjectHeadRow) where
  module _ (n : ℕ) (mark : Bool) (change : ObjectHeadRow → ObjectHeadRow)
      (keeps : (h : ObjectHeadRow) → at_object u key (change h) ≡ at_object u key h)
      (sets : (h : ObjectHeadRow) → (change h).conflicted ≡ mark) where
    abbrev inserted : ObjectHeadRow
    inserted = record { object_type = t; object_id = id; head_sequence = n; conflicted = mark }

    abbrev MarksAfter : Type 0
    MarksAfter =
        is_conflicted (find (at_object u key) (upsert inserted change heads))
        ≡ (if same_object u key t id then mark else is_conflicted (find (at_object u key) heads))

    found_there :
        any (at_object t id) heads ≡ true
        → same_object u key t id ≡ true
        → is_defined (find (at_object u key) heads) ≡ true
    found_there there same =
        rw (← any-find (at_object u key) heads, fun_ext (same_object-rows t u id key same)) there

    -- After an upsert the object has the mark, and the other objects have theirs.
    upsert_marks : MarksAfter
    unfolding upsert find is_conflicted
    upsert_marks = elim (Bool-cases (any (at_object t id) heads)) [
      | inl there ↦
          rw there (
            update_marks change mark t u id key keeps sets heads
            ∙ ground (arith, found_there there))
      | inr missing ↦ rw (missing, same_object_comm t u id key) (ground arith)
    ]

module _ (t u : ObjectType) (id key : Text) (n : ℕ) (db : Db) where
  pub accept_head-marks :
      is_conflicted (find_object_head u key (accept_head t id n db))
      ≡ (if same_object u key t id then false else is_conflicted (find_object_head u key db))
  unfolding find_object_head accept_head
  accept_head-marks =
      upsert_marks t u id key db.object_heads n false
        (λ h. record h { head_sequence = n; conflicted = false }) (λ h. refl) (λ h. refl)

  pub conflict_head-marks :
      is_conflicted (find_object_head u key (conflict_head t id db))
      ≡ (if same_object u key t id then true else is_conflicted (find_object_head u key db))
  unfolding find_object_head conflict_head
  conflict_head-marks =
      upsert_marks t u id key db.object_heads 0 true (λ h. record h { conflicted = true })
        (λ h. refl) (λ h. refl)

  pub resolve_head-marks :
      is_conflicted (find_object_head u key (resolve_head t id n db))
      ≡ (if same_object u key t id then false else is_conflicted (find_object_head u key db))
  unfolding find_object_head resolve_head
  resolve_head-marks =
      update_marks (λ h. record h { head_sequence = n; conflicted = false }) false t u id key
        (λ h. refl) (λ h. refl) db.object_heads
      ∙ undefined_is_unmarked (find (at_object u key) db.object_heads)
    where
      undefined_is_unmarked :
          (head : Option ObjectHeadRow)
          → (if same_object u key t id && is_defined head then false else is_conflicted head)
            ≡ (if same_object u key t id then false else is_conflicted head)
      undefined_is_unmarked none = unfold is_conflicted in ground arith
      undefined_is_unmarked (some h) = ground arith
