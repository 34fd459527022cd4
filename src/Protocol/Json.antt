-- ===== src/Protocol/Json.antt =====
-- `JSON.stringify` of a string.
use vorcaro_ledger.Prelude.{
  ℕ, ◌+◌, ◌/◌, ◌%◌, Bool, false, ◌&&◌, ◌-◌, [], ◌∷◌, ◌++◌, ltb, leb, ◌==◌, if◌then◌else◌, Text,
  codes,
}

hex_unit : ℕ → ℕ
hex_unit d = if ltb d 10 then b'0' + d else b'a' + (d - 10)

-- `\uXXXX`
unicode_escape : ℕ → Text
unfolding hex_unit
unicode_escape c =
    codes "\\u"
    ++ hex_unit (c / 4096)
      ∷ hex_unit (c / 256 % 16)
      ∷ hex_unit (c / 16 % 16)
      ∷ hex_unit (c % 16)
      ∷ []

-- A unit that is no surrogate.
escape_unit : ℕ → Text
unfolding unicode_escape
escape_unit c =
    if c == b'"'
    then codes "\\\""
    else if c == 92
    then codes "\\\\"
    else if c == 8
    then codes "\\b"
    else if c == 9
    then codes "\\t"
    else if c == 10
    then codes "\\n"
    else if c == 12
    then codes "\\f"
    else if c == 13
    then codes "\\r"
    else if ltb c 32
    then unicode_escape c
    else c ∷ []

abbrev is_high : ℕ → Bool
is_high c = leb 0xd800 c && leb c 0xdbff

abbrev is_low : ℕ → Bool
is_low c = leb 0xdc00 c && leb c 0xdfff

-- Whether the text goes on with the second half of a surrogate pair.
low_next : Text → Bool
low_next [] = false
low_next (d ∷ s) = is_low d

-- `paired` says that the unit before was the first half of a pair.
escape_units : Bool → Text → Text
unfolding escape_unit low_next
escape_units paired [] = []
escape_units paired (c ∷ s) =
    (if paired && is_low c
      then c ∷ []
      else if is_high c
      then (if low_next s then c ∷ [] else unicode_escape c)
      else if is_low c
      then unicode_escape c
      else escape_unit c)
    ++ escape_units (is_high c && low_next s) s

unfoldable pub json_string : Text → Text
unfolding escape_units
json_string s = b'"' ∷ escape_units false s ++ b'"' ∷ []
