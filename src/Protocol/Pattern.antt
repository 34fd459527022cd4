-- ===== src/Protocol/Pattern.antt =====
-- The regular expressions of packages/protocol/src/schemas.ts, as tests on code units.
use vorcaro_ledger.Prelude.{
  ℕ, zero, suc, Bool, true, false, not, ◌&&◌, ◌||◌, List, [], ◌∷◌, ◌==◌, leb, if◌then◌else◌, Text,
  codes, length,
}

abbrev between : ℕ → ℕ → ℕ → Bool
between lo hi c = leb lo c && leb c hi

-- `\d`
abbrev pub is_digit : ℕ → Bool
is_digit c = between b'0' b'9' c

unfoldable pub all_units : (ℕ → Bool) → Text → Bool
all_units p [] = true
all_units p (c ∷ s) = p c && all_units p s

-- `^\d+$`
unfoldable pub is_digits : Text → Bool
unfolding all_units
is_digits [] = false
is_digits (c ∷ s) = is_digit c && all_units is_digit s

-- `^[A-Z]{3}$`
unfoldable pub is_currency_code : Text → Bool
unfolding all_units
is_currency_code s = length s == 3 && all_units (between b'A' b'Z') s

-- The text behind a prefix.
unfoldable pub strip_prefix : Text → Text → List Text
strip_prefix [] s = s ∷ []
strip_prefix (p ∷ ps) [] = []
strip_prefix (p ∷ ps) (c ∷ s) = let rest = strip_prefix ps s in if p == c then rest else []

abbrev is_hex_digit : ℕ → Bool
is_hex_digit c = is_digit c || between b'a' b'f' c

hash_body : List Text → Bool
unfolding all_units
hash_body [] = false
hash_body (s ∷ _) = length s == 64 && all_units is_hex_digit s

-- `^sha256:[0-9a-f]{64}$`
unfoldable pub is_hash : Text → Bool
unfolding hash_body strip_prefix
is_hash s = hash_body (strip_prefix (codes "sha256:") s)

abbrev is_base64_unit : ℕ → Bool
is_base64_unit c =
    between b'A' b'Z' c || between b'a' b'z' c || is_digit c || c == b'+' || c == b'/'

-- `={0,n}$`
padding : ℕ → Text → Bool
padding n [] = true
padding zero (c ∷ s) = false
padding (suc n) (c ∷ s) = c == b'=' && padding n s

-- `^[A-Za-z0-9+/]*={0,2}$`
unfoldable pub is_base64 : Text → Bool
unfolding padding
is_base64 [] = true
is_base64 (c ∷ s) = is_base64_unit c && is_base64 s || padding 2 (c ∷ s)

-- What follows the leading digits, and whether there is such a digit: the split of `\d+`.
unfoldable pub skip_digits : Text → Text
skip_digits [] = []
skip_digits (c ∷ s) = let rest = skip_digits s in if is_digit c then rest else c ∷ s

-- `(\.\d{1,12})?$`
unfoldable pub fraction_part : Text → Bool
unfolding is_digits
fraction_part [] = true
fraction_part (c ∷ s) = c == b'.' && is_digits s && leb (length s) 12

-- `(0|[1-9]\d*)` and what follows
unfoldable pub is_rate_shape : Text → Bool
is_rate_shape [] = false
is_rate_shape (c ∷ s) =
    if c == b'0' then fraction_part s else is_digit c && fraction_part (skip_digits s)

abbrev pub is_zero_digit : ℕ → Bool
is_zero_digit c = c == b'0'

unfoldable pub zero_fraction : Text → Bool
unfolding all_units
zero_fraction [] = true
zero_fraction (c ∷ []) = false
zero_fraction (c ∷ d ∷ s) = c == b'.' && all_units is_zero_digit (d ∷ s)

-- `^0(?:\.0+)?$`
unfoldable pub is_zero_rate : Text → Bool
is_zero_rate [] = false
is_zero_rate (c ∷ s) = c == b'0' && zero_fraction s

-- `exchangeRateSchema`
unfoldable pub is_exchange_rate : Text → Bool
is_exchange_rate s = is_rate_shape s && not (is_zero_rate s)

-- `z.string().min(1)`
unfoldable pub is_nonempty : Text → Bool
is_nonempty [] = false
is_nonempty (c ∷ s) = true
