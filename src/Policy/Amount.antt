-- ===== src/Policy/Amount.antt =====
-- The amount of an event in the default currency: `parseExchangeRate`, `conditionBigInt` and
-- `defaultCurrencyAmountMinorUnits` of server/src/policy/engine.ts.
pub mod Rounding
pub mod Rates
use vorcaro_ledger.Prelude.{
  ℕ, ◌+◌, ◌*◌, ◌-◌, ◌/◌, ◌^◌, Bool, not, Option, none, some, List, [], ◌∷◌, ◌++◌, Text, length, ltb,
  ◌==◌, if◌then◌else◌,
}
use vorcaro_ledger.Prelude.Int.{ℤ, pos, negsuc}
use vorcaro_ledger.Protocol.Types.{ErrorCode}
use vorcaro_ledger.Protocol.Result.{Result, ok, err, coded, guard, ◌>>=◌, ◌>>◌}
use vorcaro_ledger.Protocol.Pattern.{is_digits, is_exchange_rate}
use vorcaro_ledger.Protocol.Decimal.{read_decimal}
use vorcaro_ledger.Protocol.Canonical.{CanonicalJson, bigint, number, str}
use vorcaro_ledger.Protocol.Envelope.{PolicyMetadata, ClientEventEnvelope}

pub record Rate : Type 0 where
  pub numerator : ℕ
  pub denominator : ℕ

-- The first two parts of `value.split(".")`; a missing second part is the empty text.
unfoldable pub before_dot : Text → Text
before_dot [] = []
before_dot (c ∷ s) = let rest = before_dot s in if c == b'.' then [] else c ∷ rest

unfoldable pub after_dot : Text → Text
after_dot [] = []
after_dot (c ∷ s) = let rest = after_dot s in if c == b'.' then before_dot s else rest

unfoldable pub parse_exchange_rate : Text → Result Rate
parse_exchange_rate value = do
  guard (is_exchange_rate value) (coded ErrorCode.schema_invalid)
  ok (record {
    numerator = read_decimal (before_dot value ++ after_dot value);
    denominator = 10 ^ length (after_dot value);
  })

-- Rounded up to a whole minor unit.
unfoldable pub convert : ℕ → Rate → ℕ
convert local_rate rate =
    let numerator = local_rate * rate.numerator in
    if numerator == 0 then 0 else (numerator + rate.denominator - 1) / rate.denominator

abbrev or_zero : Option ℤ → ℤ
or_zero none = pos 0
or_zero (some amount) = amount

unfoldable pub converted_amount : PolicyMetadata → Option ℕ → Option Text → Result ℤ
converted_amount m none rate = ok (or_zero m.amount_minor_units)
converted_amount m (some local) none = ok (or_zero m.amount_minor_units)
converted_amount m (some local) (some value) = do
  rate ← parse_exchange_rate value
  ok (pos (convert local rate))

unfoldable pub default_currency_amount_minor_units : ClientEventEnvelope → Result ℤ
default_currency_amount_minor_units event =
    let m = event.policy_metadata in converted_amount m m.local_rate m.exchange_rate

abbrev pub max_safe_integer : ℕ
max_safe_integer = 9007199254740991

abbrev is_safe_integer : ℤ → Bool
is_safe_integer (pos n) = ltb n (max_safe_integer + 1)
is_safe_integer (negsuc n) = ltb n max_safe_integer

unfoldable pub condition_big_int : CanonicalJson → Result ℤ
condition_big_int (bigint n) = ok n
condition_big_int (number n) =
    if is_safe_integer n then ok n else err (coded ErrorCode.schema_invalid)
condition_big_int (str s) =
    if is_digits s then ok (pos (read_decimal s)) else err (coded ErrorCode.schema_invalid)
condition_big_int _ = err (coded ErrorCode.schema_invalid)
