-- ===== src/Policy/Stored.antt =====
-- The JSON text in the column `document`: `serializePolicyDocument` and `parsePolicyDocument` of
-- server/src/policy/engine.ts. A text is stored here as the value that JSON reads from it; a bigint is
-- written as a string of its digits and an `n`, and each such string is read as a bigint, also one
-- that was a string.
use mathlib.Core.Option
use vorcaro_ledger.Prelude.{
  ℕ, Option, none, some, List, [], ◌∷◌, ◌++◌, Text, ◌==◌, if◌then◌else◌, map,
}
use vorcaro_ledger.Prelude.Int.{ℤ, pos}
use vorcaro_ledger.Protocol.Types.{EventType, ObjectType, Role}
use vorcaro_ledger.Protocol.Result.{Result, ok, err, zod_error, ◌>>=◌}
use vorcaro_ledger.Protocol.Pattern.{is_digits}
use vorcaro_ledger.Protocol.Decimal.{decimal_ℤ, read_decimal}
use vorcaro_ledger.Protocol.Canonical.{
  CanonicalJson, Items, Fields, null, boolean, number, bigint, str, arr, obj, nil, cons, end, field,
  undef,
}
use vorcaro_ledger.Policy.Document.{PolicyAction, Money, Permission, ApprovalRule, PolicyDocument}
use vorcaro_ledger.Policy.Schema.{parse_policy_document}

pub record StoredMoney : Type 0 where
  pub amount_minor_units : Text
  pub currency : Text

pub record StoredPermission : Type 0 where
  pub role : Role
  pub object_type : ObjectType
  pub actions : List PolicyAction
  pub conditions : Option Fields

pub record StoredRule : Type 0 where
  pub event_types : List EventType
  pub threshold : Option StoredMoney
  pub required_roles : List Role
  pub required_count : ℕ

-- The names of roles, types and actions are no digits, so they are read as they were written.
pub record StoredPolicy : Type 0 where
  pub id : Text
  pub version : ℕ
  pub default_currency : Text
  pub permissions : List StoredPermission
  pub approval_rules : List StoredRule
  pub document_hash : Text
  pub activated_at_sequence : Option Text
  pub signature : Text

-- `${value.toString(10)}n`
unfoldable pub big_text : ℤ → Text
big_text n = decimal_ℤ n ++ b'n' ∷ []

-- What JSON.stringify keeps of a value; a key with the value `undefined` is dropped.
unfoldable mutual
  unfolding big_text

  pub stringify : CanonicalJson → CanonicalJson
  stringify (bigint n) = str (big_text n)
  stringify (arr items) = arr (stringify_items items)
  stringify (obj fields) = obj (stringify_fields fields)
  stringify null = null
  stringify (boolean b) = boolean b
  stringify (number n) = number n
  stringify (str s) = str s

  pub stringify_items : Items → Items
  stringify_items nil = nil
  stringify_items (cons item items) = cons (stringify item) (stringify_items items)

  pub stringify_fields : Fields → Fields
  stringify_fields end = end
  stringify_fields (field key value fields) = field key (stringify value) (stringify_fields fields)
  stringify_fields (undef key fields) = stringify_fields fields

unfoldable pub stored_money : Money → StoredMoney
stored_money m = record {
  amount_minor_units = big_text m.amount_minor_units;
  currency = m.currency;
}

unfoldable pub stored_permission : Permission → StoredPermission
stored_permission p = record {
  role = p.role;
  object_type = p.object_type;
  actions = p.actions;
  conditions = Option.map stringify_fields p.conditions;
}

unfoldable pub stored_rule : ApprovalRule → StoredRule
stored_rule r = record {
  event_types = r.event_types;
  threshold = Option.map stored_money r.threshold;
  required_roles = r.required_roles;
  required_count = r.required_count;
}

unfoldable pub serialize_policy_document : PolicyDocument → StoredPolicy
serialize_policy_document p = record {
  id = p.id;
  version = p.version;
  default_currency = p.default_currency;
  permissions = map stored_permission p.permissions;
  approval_rules = map stored_rule p.approval_rules;
  document_hash = p.document_hash;
  activated_at_sequence = Option.map (λ n. big_text (pos n)) p.activated_at_sequence;
  signature = p.signature;
}

-- The text before a final `n`: `value.slice(0, -1)`, where there is one.
unfoldable pub before_n : Text → Option Text
before_n [] = none
before_n (c ∷ []) = if c == b'n' then some [] else none
before_n (c ∷ d ∷ s) = let rest = before_n (d ∷ s) in Option.map (λ t. c ∷ t) rest

unfoldable pub if_digits : Option Text → Option Text
if_digits none = none
if_digits (some digits) = if is_digits digits then some digits else none

-- `/^\d+n$/.test(value)`, with the digits.
unfoldable pub bigint_digits : Text → Option Text
bigint_digits s = if_digits (before_n s)

-- A string that the schema wants to be a string: it must not have become a bigint.
abbrev pub string_of : Text → Option Text → Result Text
string_of s none = ok s
string_of s (some digits) = err zod_error

unfoldable pub read_string : Text → Result Text
read_string s = string_of s (bigint_digits s)

-- A string that the schema wants to be a bigint.
abbrev pub bigint_of : Option Text → Result ℕ
bigint_of none = err zod_error
bigint_of (some digits) = ok (read_decimal digits)

unfoldable pub read_bigint : Text → Result ℕ
read_bigint s = bigint_of (bigint_digits s)

abbrev pub json_of : Text → Option Text → CanonicalJson
json_of s none = str s
json_of s (some digits) = bigint (pos (read_decimal digits))

unfoldable pub revive_text : Text → CanonicalJson
revive_text s = json_of s (bigint_digits s)

-- JSON.parse with the reviver, on values of which the schema asks nothing.
unfoldable mutual
  unfolding revive_text

  pub revive : CanonicalJson → CanonicalJson
  revive (str s) = revive_text s
  revive (arr items) = arr (revive_items items)
  revive (obj fields) = obj (revive_fields fields)
  revive null = null
  revive (boolean b) = boolean b
  revive (number n) = number n
  revive (bigint n) = bigint n

  pub revive_items : Items → Items
  revive_items nil = nil
  revive_items (cons item items) = cons (revive item) (revive_items items)

  pub revive_fields : Fields → Fields
  revive_fields end = end
  revive_fields (field key value fields) = field key (revive value) (revive_fields fields)
  revive_fields (undef key fields) = undef key (revive_fields fields)

unfoldable pub revived_permission : StoredPermission → Permission
revived_permission p = record {
  role = p.role;
  object_type = p.object_type;
  actions = p.actions;
  conditions = Option.map revive_fields p.conditions;
}

unfoldable pub read_money : StoredMoney → Result Money
read_money m = do
  amount ← read_bigint m.amount_minor_units
  currency ← read_string m.currency
  ok (record { amount_minor_units = pos amount; currency = currency })

-- `.optional()` and `.nullable()`
unfoldable pub read_optional : {A B : Type 0} → (A → Result B) → Option A → Result (Option B)
read_optional f none = ok none
read_optional f (some a) = do b ← f a; ok (some b)

unfoldable pub read_rule : StoredRule → Result ApprovalRule
read_rule r = do
  threshold ← read_optional read_money r.threshold
  ok (record {
    event_types = r.event_types;
    threshold = threshold;
    required_roles = r.required_roles;
    required_count = r.required_count;
  })

unfoldable pub read_rules : List StoredRule → Result (List ApprovalRule)
read_rules [] = ok []
read_rules (r ∷ rs) =
    let rest = read_rules rs in do rule ← read_rule r; rules ← rest; ok (rule ∷ rules)

-- `parsePolicyDocument`
unfoldable pub read_policy_document : StoredPolicy → Result PolicyDocument
read_policy_document p = do
  id ← read_string p.id
  default_currency ← read_string p.default_currency
  rules ← read_rules p.approval_rules
  document_hash ← read_string p.document_hash
  activated ← read_optional read_bigint p.activated_at_sequence
  signature ← read_string p.signature
  parse_policy_document (record {
    id = id;
    version = p.version;
    default_currency = default_currency;
    permissions = map revived_permission p.permissions;
    approval_rules = rules;
    document_hash = document_hash;
    activated_at_sequence = activated;
    signature = signature;
  })
