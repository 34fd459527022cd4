-- ===== src/Protocol/Canonical.antt =====
-- packages/protocol/src/canonical.ts. A JavaScript number is an integer here: the server's
-- documents have no others. `key_le` is `left.localeCompare(right) <= 0`.
use vorcaro_ledger.Prelude.{
  Bool, true, false, List, [], ◌∷◌, ◌++◌, map, Text, codes, Option, none, some,
}
use vorcaro_ledger.Prelude.Int.{ℤ}
use vorcaro_ledger.Prelude.Sort.{sort}
use vorcaro_ledger.Protocol.Decimal.{decimal_ℤ}
use vorcaro_ledger.Protocol.Json.{json_string}

-- `undef` is a key whose value is `undefined`.
mutual
  pub data CanonicalJson : Type 0 where
    null : CanonicalJson
    boolean : Bool → CanonicalJson
    number bigint : ℤ → CanonicalJson
    str : Text → CanonicalJson
    arr : Items → CanonicalJson
    obj : Fields → CanonicalJson

  pub data Items : Type 0 where
    nil : Items
    cons : CanonicalJson → Items → Items

  pub data Fields : Type 0 where
    end : Fields
    field : Text → CanonicalJson → Fields → Fields
    undef : Text → Fields → Fields

-- `.join(",")`
unfoldable pub join_comma : List Text → Text
join_comma [] = []
join_comma (s ∷ []) = s
join_comma (s ∷ t ∷ rest) = s ++ b',' ∷ join_comma (t ∷ rest)

unfoldable pub entry_text : Text × Text → Text
entry_text (key, value) = json_string key ++ b':' ∷ value

module _ (key_le : Text → Text → Bool) where
  abbrev pub entry_le : Text × Text → Text × Text → Bool
  entry_le left right = key_le left.0 right.0

  unfoldable pub object_text : List (Text × Text) → Text
  object_text entries = b'{' ∷ join_comma (map entry_text (sort entry_le entries)) ++ b'}' ∷ []

  -- The values are encoded before the sort, which compares keys only.
  unfoldable mutual
    unfolding object_text

    pub canonicalize : CanonicalJson → Text
    canonicalize null = codes "null"
    canonicalize (boolean true) = codes "true"
    canonicalize (boolean false) = codes "false"
    canonicalize (number n) = decimal_ℤ n
    canonicalize (bigint n) = decimal_ℤ n
    canonicalize (str s) = json_string s
    canonicalize (arr items) = b'[' ∷ join_comma (item_texts items) ++ b']' ∷ []
    canonicalize (obj fields) = object_text (field_texts fields)

    pub item_texts : Items → List Text
    item_texts nil = []
    item_texts (cons item items) = canonicalize item ∷ item_texts items

    pub field_texts : Fields → List (Text × Text)
    field_texts end = []
    field_texts (field key value fields) = (key, canonicalize value) ∷ field_texts fields
    field_texts (undef key fields) = field_texts fields

-- A key that may be absent.
unfoldable pub optional_field : Text → Option CanonicalJson → Fields → Fields
optional_field key none fields = undef key fields
optional_field key (some value) fields = field key value fields
