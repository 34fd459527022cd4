-- ===== src/Projections/Accounts.antt =====
-- The accounts of the read model in server/src/projections/worker.ts, up to their conflict marks,
-- which each batch sets anew.
use vorcaro_ledger.Prelude.{
  true, false, List, [], ◌∷◌, ◌++◌, map, Text, any, update_where, ◌≡◌, refl, sym, ap, ◌∙◌, arith,
  inl, inr, Bool-cases,
}
use vorcaro_ledger.Prelude.Int.{ℤ}
use vorcaro_ledger.Protocol.Types.{ObjectType, object_type_eq}
use vorcaro_ledger.Protocol.Result.{Result, ok, err, bind_ok, Result-cases, ◌>>=◌}
use vorcaro_ledger.Database.Tables.{ConflictRow}
use vorcaro_ledger.Projections.Tables.{AccountStatus, AccountRow}
use vorcaro_ledger.Projections.Statements.{
  LedgerEvent, parse_policy_metadata, new_account, is_account, replace_account, insert_or_replace,
  set_conflicted,
}
use vorcaro_ledger.Projections.Frame.{map_ok, apply_accounts, apply_all_accounts, mark_all}
use vorcaro_ledger.Projections.Totals.{AllZero}

abbrev pub strip : List AccountRow → List AccountRow
strip = map (set_conflicted false)

pub strip-strip : (xs : List AccountRow) → strip (strip xs) ≡ strip xs
strip-strip [] = refl
strip-strip (x ∷ xs) = ap (λ ys. set_conflicted false x ∷ ys) (strip-strip xs)

-- A change that leaves the mark out of account, on some of the accounts.
IsBlind : (AccountRow → AccountRow) → Type 0
IsBlind f =
    (a : AccountRow)
    → set_conflicted false (f a) ≡ set_conflicted false (f (set_conflicted false a))

strip-update_where :
    (id : Text) (f : AccountRow → AccountRow)
    → IsBlind f
    → (xs : List AccountRow)
    → strip (update_where (is_account id) f xs) ≡ strip (update_where (is_account id) f (strip xs))
unfolding update_where IsBlind
strip-update_where id f blind [] = refl
strip-update_where id f blind (x ∷ xs) = ground (arith, blind x, strip-update_where id f blind xs)

any-strip :
    (id : Text) (xs : List AccountRow) → any (is_account id) (strip xs) ≡ any (is_account id) xs
unfolding any
any-strip id [] = refl
any-strip id (x ∷ xs) = ground (arith, any-strip id xs)

strip-insert_or_replace :
    (new : AccountRow) (xs : List AccountRow)
    → strip (insert_or_replace new xs) ≡ strip (insert_or_replace new (strip xs))
unfolding insert_or_replace IsBlind
strip-insert_or_replace new xs = elim (Bool-cases (any (is_account new.account_id) xs)) [
  | inl seen ↦
      rw (any-strip new.account_id xs, seen)
        (strip-update_where new.account_id (replace_account new) (λ a. refl) xs)
  | inr fresh ↦
      rw (any-strip new.account_id xs, fresh)
        (ap (λ ys. set_conflicted false new ∷ ys) (sym (strip-strip xs)))
]

pub strip-mark_all :
    (conflicts : List ConflictRow) (xs : List AccountRow) → strip (mark_all conflicts xs) ≡ strip xs
unfolding mark_all update_where
strip-mark_all [] xs = refl
strip-mark_all (c ∷ cs) xs = elim (Bool-cases (object_type_eq c.object_type ObjectType.account)) [
  | inl account ↦ rw account (
      strip-mark_all cs (update_where (is_account c.object_id) (set_conflicted true) xs)
      ∙ marked xs)
  | inr other ↦ rw other (strip-mark_all cs xs)
]
  where
    marked :
        (ys : List AccountRow)
        → strip (update_where (is_account c.object_id) (set_conflicted true) ys) ≡ strip ys
    marked [] = refl
    marked (y ∷ ys) = ground (arith, marked ys)

module _ (big_int : Text → Result ℤ) where
  created : (event : LedgerEvent) (xs : List AccountRow) → Result (List AccountRow)
  created event xs =
      map_ok (λ metadata. insert_or_replace (new_account event metadata) xs)
        (parse_policy_metadata big_int event.policy_metadata)

  strip-created :
      (event : LedgerEvent) (xs : List AccountRow)
      → map_ok strip (created event xs) ≡ map_ok strip (created event (strip xs))
  unfolding created
  strip-created event xs =
      elim (Result-cases (parse_policy_metadata big_int event.policy_metadata)) [
        | inl (metadata, is) ↦
            rw is (ap ok (strip-insert_or_replace (new_account event metadata) xs))
        | inr (e, threw) ↦ rw threw refl
      ]

  -- Events are blind to the marks.
  strip-apply_accounts :
      (event : LedgerEvent) (xs : List AccountRow)
      → map_ok strip (apply_accounts big_int event xs)
        ≡ map_ok strip (apply_accounts big_int event (strip xs))
  unfolding apply_accounts created IsBlind
  strip-apply_accounts event xs = ground (
    arith,
    strip-created event xs,
    strip-strip xs,
    strip-update_where event.object_id
        (λ a. record a { status = AccountStatus.closed; as_of_sequence = event.server_sequence })
        (λ a. refl) xs,
    strip-update_where event.object_id (set_conflicted false) (λ a. refl) xs,
  )

  pub strip-apply_all_accounts :
      (events : List LedgerEvent) (xs ys : List AccountRow)
      → strip xs ≡ strip ys
      → map_ok strip (apply_all_accounts big_int events xs)
        ≡ map_ok strip (apply_all_accounts big_int events ys)
  unfolding apply_all_accounts
  strip-apply_all_accounts [] xs ys h = ap ok h
  strip-apply_all_accounts (event ∷ events) xs ys h =
      step (apply_accounts big_int event xs) (apply_accounts big_int event ys)
        (strip-apply_accounts event xs
          ∙ ap (λ zs. map_ok strip (apply_accounts big_int event zs)) h
          ∙ sym (strip-apply_accounts event ys))
        (strip-apply_all_accounts events)
    where
      step :
          (r r' : Result (List AccountRow))
          → map_ok strip r ≡ map_ok strip r'
          → ((xs' ys' : List AccountRow)
              → strip xs' ≡ strip ys'
              → map_ok strip (apply_all_accounts big_int events xs')
                ≡ map_ok strip (apply_all_accounts big_int events ys'))
          → map_ok strip (r >>= apply_all_accounts big_int events)
            ≡ map_ok strip (r' >>= apply_all_accounts big_int events)
      step (ok xs') (ok ys') same rest = rest xs' ys' (cc)
      step (err e) (err e') same rest = cc
      step (ok xs') (err e) same rest = absurd (cc)
      step (err e) (ok ys') same rest = absurd (cc)

  pub apply_all_accounts-append :
      (xs ys : List LedgerEvent) (accounts : List AccountRow)
      → apply_all_accounts big_int (xs ++ ys) accounts
        ≡ (apply_all_accounts big_int xs accounts >>= apply_all_accounts big_int ys)
  unfolding apply_all_accounts
  apply_all_accounts-append [] ys accounts = refl
  apply_all_accounts-append (x ∷ xs) ys accounts =
      elim (Result-cases (apply_accounts big_int x accounts)) [
        | inl (next, is) ↦ rw is (apply_all_accounts-append xs ys next)
        | inr (e, threw) ↦ rw threw refl
      ]

-- The balances stay 0.
AllZero-update_where :
    (id : Text) (f : AccountRow → AccountRow)
    → ((a : AccountRow) → (f a).balance_minor_units ≡ a.balance_minor_units)
    → (xs : List AccountRow) → AllZero xs
    → AllZero (update_where (is_account id) f xs)
unfolding update_where
AllZero-update_where id f keeps [] h = tt
AllZero-update_where id f keeps (x ∷ xs) h =
    ground (arith, h, keeps x, AllZero-update_where id f keeps xs h.1)

pub AllZero-strip : (xs : List AccountRow) → AllZero xs → AllZero (strip xs)
AllZero-strip [] h = tt
AllZero-strip (x ∷ xs) h = (h.0, AllZero-strip xs h.1)

pub AllZero-mark_all :
    (conflicts : List ConflictRow) (xs : List AccountRow)
    → AllZero xs
    → AllZero (mark_all conflicts xs)
unfolding mark_all
AllZero-mark_all [] xs h = h
AllZero-mark_all (c ∷ cs) xs h =
    elim (Bool-cases (object_type_eq c.object_type ObjectType.account)) [
      | inl account ↦ rw account (
          AllZero-mark_all cs _
            (AllZero-update_where c.object_id (set_conflicted true) (λ a. refl) xs h))
      | inr other ↦ rw other (AllZero-mark_all cs xs h)
    ]

AllZero-insert_or_replace :
    (new : AccountRow) (xs : List AccountRow)
    → new.balance_minor_units ≡ 0
    → AllZero xs
    → AllZero (insert_or_replace new xs)
unfolding insert_or_replace
AllZero-insert_or_replace new xs z h = elim (Bool-cases (any (is_account new.account_id) xs)) [
  | inl seen ↦ rw seen (AllZero-update_where new.account_id (replace_account new) (λ a. refl) xs h)
  | inr fresh ↦ rw fresh (z, h)
]

module _ (big_int : Text → Result ℤ) where
  AllZero-apply_accounts :
      (event : LedgerEvent) (xs ys : List AccountRow)
      → AllZero xs
      → apply_accounts big_int event xs ≡ ok ys
      → AllZero ys
  unfolding apply_accounts
  AllZero-apply_accounts event xs ys h is =
      elim (Result-cases (parse_policy_metadata big_int event.policy_metadata)) [
        | inl (metadata, parsed) ↦ ground (
          arith,
          h,
          AllZero-insert_or_replace (new_account event metadata) xs refl h,
          AllZero-update_where event.object_id
              (λ a. record a {
                status = AccountStatus.closed;
                as_of_sequence = event.server_sequence;
              })
              (λ a. refl) xs h,
          AllZero-update_where event.object_id (set_conflicted false) (λ a. refl) xs h,
        )
        | inr (e, threw) ↦ ground (
          arith,
          h,
          AllZero-update_where event.object_id
              (λ a. record a {
                status = AccountStatus.closed;
                as_of_sequence = event.server_sequence;
              })
              (λ a. refl) xs h,
          AllZero-update_where event.object_id (set_conflicted false) (λ a. refl) xs h,
        )
      ]

  pub AllZero-apply_all_accounts :
      (events : List LedgerEvent) (xs ys : List AccountRow)
      → AllZero xs
      → apply_all_accounts big_int events xs ≡ ok ys
      → AllZero ys
  unfolding apply_all_accounts
  AllZero-apply_all_accounts [] xs ys h is = ground (arith, h)
  AllZero-apply_all_accounts (event ∷ events) xs ys h is =
      let (zs, first, rest) =
        bind_ok (apply_accounts big_int event xs) (apply_all_accounts big_int events) ys is in
      AllZero-apply_all_accounts events zs ys (AllZero-apply_accounts event xs zs h first) rest
