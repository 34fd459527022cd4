-- ===== src/Policy/Reading.antt =====
-- What `parsePolicyDocument` of server/src/policy/engine.ts reads of a policy that
-- `serializePolicyDocument` wrote.
use mathlib.Core.Option
use vorcaro_ledger.Prelude.{
  ℕ, true, Option, none, some, List, [], ◌∷◌, ◌++◌, Text, map, All, Bool-cases, Option-cases, inl,
  inr, ◌≡◌, refl, sym, ap, ◌∙◌, arith,
}
use vorcaro_ledger.Prelude.Int.{pos, negsuc}
use vorcaro_ledger.Protocol.Result.{ok}
use vorcaro_ledger.Protocol.Pattern.{is_digits}
use vorcaro_ledger.Protocol.Decimal.{decimal, decimal_ℤ, read_decimal-decimal, is_digits-decimal}
use vorcaro_ledger.Protocol.Canonical.{
  CanonicalJson, Items, Fields, null, boolean, number, bigint, str, arr, obj, nil, cons, end, field,
  undef,
}
use vorcaro_ledger.Policy.Document.{Money, Permission, ApprovalRule, PolicyDocument}
use vorcaro_ledger.Policy.Schema.{parse_policy_document, policy_document_valid}
use vorcaro_ledger.Policy.Stored.{
  big_text, stringify, stringify_items, stringify_fields, stored_money, stored_permission,
  stored_rule, serialize_policy_document, before_n, if_digits, bigint_digits, string_of, bigint_of,
  json_of, read_string, read_bigint, revive_text, revive, revive_items, revive_fields,
  revived_permission, read_money, read_optional, read_rule, read_rules, read_policy_document,
}

-- A text that is no digits with an `n` behind them.
abbrev pub IsNoBigint : Text → Type 0
IsNoBigint s = ¬ ((digits : Text) × (is_digits digits ≡ true) × (s ≡ digits ++ b'n' ∷ []))

before_n-append : (s : Text) → before_n (s ++ b'n' ∷ []) ≡ some s
unfolding before_n
before_n-append [] = refl
before_n-append (c ∷ []) = refl
before_n-append (c ∷ d ∷ s) = rw (before_n-append (d ∷ s)) refl

before_n_inverse : (s t : Text) → before_n s ≡ some t → s ≡ t ++ b'n' ∷ []
unfolding before_n
before_n_inverse [] t h = absurd (cc)
before_n_inverse (c ∷ []) t h = ground (arith, h)
before_n_inverse (c ∷ d ∷ s) t h = elim (Option-cases (before_n (d ∷ s))) [
  | inl nothing ↦ absurd (ground (arith, h, nothing))
  | inr (u, before) ↦
      let is : c ∷ u ≡ t = ground (arith, h, before) in
      ap (λ r. c ∷ r) (before_n_inverse (d ∷ s) u before) ∙ ap (λ r. r ++ b'n' ∷ []) is
]

if_digits-some : (s : Text) → is_digits s ≡ true → if_digits (some s) ≡ some s
unfolding if_digits
if_digits-some s digits = rw digits refl

if_digits-none : (s : Text) (o : Option Text) → before_n s ≡ o → IsNoBigint s → if_digits o ≡ none
unfolding if_digits
if_digits-none s none is plain = refl
if_digits-none s (some t) is plain = elim (Bool-cases (is_digits t)) [
  | inl digits ↦ absurd (plain (t, digits, before_n_inverse s t is))
  | inr other ↦ rw other refl
]

bigint_digits-big_text : (n : ℕ) → bigint_digits (big_text (pos n)) ≡ some (decimal n)
unfolding bigint_digits big_text decimal_ℤ
bigint_digits-big_text n =
    ap if_digits (before_n-append (decimal n)) ∙ if_digits-some (decimal n) (is_digits-decimal n)

bigint_digits-none : (s : Text) → IsNoBigint s → bigint_digits s ≡ none
unfolding bigint_digits
bigint_digits-none s plain = if_digits-none s (before_n s) refl plain

-- What the reviver does not take for a bigint is none.
pub no_bigint : (s : Text) → bigint_digits s ≡ none → IsNoBigint s
unfolding bigint_digits
no_bigint s nothing (digits, are, is) =
    let read : some digits ≡ none =
      sym (if_digits-some digits are)
      ∙ sym (ap if_digits (before_n-append digits))
      ∙ sym (ap bigint_digits is)
      ∙ nothing in
    absurd (cc)

read_bigint-big_text : (n : ℕ) → read_bigint (big_text (pos n)) ≡ ok n
unfolding read_bigint
read_bigint-big_text n = ap bigint_of (bigint_digits-big_text n) ∙ ap ok (read_decimal-decimal n)

read_string_lem : (s : Text) → IsNoBigint s → read_string s ≡ ok s
unfolding read_string
read_string_lem s plain = ap (string_of s) (bigint_digits-none s plain)

-- JSON that is read as it was written: no negative bigint, no text that reads as one, and no key that
-- is undefined.
mutual
  pub IsStorable : CanonicalJson → Type 0
  IsStorable null = Unit
  IsStorable (boolean b) = Unit
  IsStorable (number n) = Unit
  IsStorable (bigint (pos n)) = Unit
  IsStorable (bigint (negsuc n)) = ⊥
  IsStorable (str s) = IsNoBigint s
  IsStorable (arr items) = AreStorable items
  IsStorable (obj fields) = HasStorable fields

  pub AreStorable : Items → Type 0
  AreStorable nil = Unit
  AreStorable (cons item items) = IsStorable item × AreStorable items

  pub HasStorable : Fields → Type 0
  HasStorable end = Unit
  HasStorable (field key value fields) = IsStorable value × HasStorable fields
  HasStorable (undef key fields) = ⊥

mutual
  unfolding IsStorable AreStorable HasStorable stringify stringify_items stringify_fields revive
      revive_items revive_fields revive_text

  revive-stringify : (v : CanonicalJson) → IsStorable v → revive (stringify v) ≡ v
  revive-stringify null h = refl
  revive-stringify (boolean b) h = refl
  revive-stringify (number n) h = refl
  revive-stringify (bigint (pos n)) h =
      ap (json_of (big_text (pos n))) (bigint_digits-big_text n)
      ∙ ap (λ k. bigint (pos k)) (read_decimal-decimal n)
  revive-stringify (bigint (negsuc n)) h = elim h [ ]
  revive-stringify (str s) h = ap (json_of s) (bigint_digits-none s h)
  revive-stringify (arr items) h = ap arr (revive_items-stringify_items items h)
  revive-stringify (obj fields) h = ap obj (revive_fields-stringify_fields fields h)

  revive_items-stringify_items :
      (items : Items) → AreStorable items → revive_items (stringify_items items) ≡ items
  revive_items-stringify_items nil h = refl
  revive_items-stringify_items (cons item items) h =
      rw (revive-stringify item h.0, revive_items-stringify_items items h.1) refl

  revive_fields-stringify_fields :
      (fields : Fields) → HasStorable fields → revive_fields (stringify_fields fields) ≡ fields
  revive_fields-stringify_fields end h = refl
  revive_fields-stringify_fields (field key value fields) h =
      rw (revive-stringify value h.0, revive_fields-stringify_fields fields h.1) refl
  revive_fields-stringify_fields (undef key fields) h = elim h [ ]

abbrev pub StorableConditions : Option Fields → Type 0
StorableConditions none = Unit
StorableConditions (some conditions) = HasStorable conditions

abbrev pub StorableThreshold : Option Money → Type 0
StorableThreshold none = Unit
StorableThreshold (some m) = ((n : ℕ) × (m.amount_minor_units ≡ pos n)) × IsNoBigint m.currency

revived_permissions :
    (ps : List Permission)
    → All (λ p. StorableConditions p.conditions) ps
    → map revived_permission (map stored_permission ps) ≡ ps
unfolding revived_permission stored_permission
revived_permissions [] h = refl
revived_permissions (p ∷ ps) h =
    rw (revived_permissions ps h.1, same_conditions p.conditions h.0) refl
  where
    same_conditions :
        (c : Option Fields)
        → StorableConditions c
        → Option.map revive_fields (Option.map stringify_fields c) ≡ c
    same_conditions none k = refl
    same_conditions (some fields) k = ap some (revive_fields-stringify_fields fields k)

read_threshold :
    (t : Option Money)
    → StorableThreshold t
    → read_optional read_money (Option.map stored_money t) ≡ ok t
unfolding read_optional read_money stored_money
read_threshold none h = refl
read_threshold (some m) ((n, is), plain) =
    rw (is, read_bigint-big_text n, read_string_lem m.currency plain) refl

read_stored_rules :
    (rs : List ApprovalRule)
    → All (λ r. StorableThreshold r.threshold) rs
    → read_rules (map stored_rule rs) ≡ ok rs
unfolding read_rules read_rule stored_rule
read_stored_rules [] h = refl
read_stored_rules (r ∷ rs) h = rw (read_threshold r.threshold h.0, read_stored_rules rs h.1) refl

read_activated :
    (o : Option ℕ) → read_optional read_bigint (Option.map (λ n. big_text (pos n)) o) ≡ ok o
unfolding read_optional
read_activated none = refl
read_activated (some n) = rw (read_bigint-big_text n) refl

-- A policy that is read as it was written.
pub record IsRestorable (p : PolicyDocument) : Type 0 where
  pub id : IsNoBigint p.id
  pub default_currency : IsNoBigint p.default_currency
  pub permissions : All (λ (q : Permission). StorableConditions q.conditions) p.permissions
  pub approval_rules : All (λ (r : ApprovalRule). StorableThreshold r.threshold) p.approval_rules
  pub document_hash : IsNoBigint p.document_hash
  pub signature : IsNoBigint p.signature

pub read-serialize_policy_document :
    (p : PolicyDocument)
    → IsRestorable p
    → read_policy_document (serialize_policy_document p) ≡ parse_policy_document p
unfolding read_policy_document serialize_policy_document
read-serialize_policy_document p h =
    rw
      (
        read_string_lem p.id h.id,
        read_string_lem p.default_currency h.default_currency,
        read_stored_rules p.approval_rules h.approval_rules,
        read_string_lem p.document_hash h.document_hash,
        read_activated p.activated_at_sequence,
        read_string_lem p.signature h.signature,
        revived_permissions p.permissions h.permissions,
      )
      refl

-- The sequence number of its activation does not matter.
pub activated-IsRestorable :
    (p : PolicyDocument) (o : Option ℕ)
    → IsRestorable p
    → IsRestorable (record p { activated_at_sequence = o })
activated-IsRestorable p o h = record {
  id = h.id;
  default_currency = h.default_currency;
  permissions = h.permissions;
  approval_rules = h.approval_rules;
  document_hash = h.document_hash;
  signature = h.signature;
}

pub activated_parses :
    (p q : PolicyDocument) (o : Option ℕ)
    → parse_policy_document p ≡ ok q
    → parse_policy_document (record p { activated_at_sequence = o })
      ≡ ok (record p { activated_at_sequence = o })
unfolding parse_policy_document policy_document_valid
activated_parses p q o h = ground (arith, h)
