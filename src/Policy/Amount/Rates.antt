-- ===== src/Policy/Amount/Rates.antt =====
-- Exchange rates that `parseExchangeRate` of server/src/policy/engine.ts accepts.
use vorcaro_ledger.Prelude.{
  ℕ, ◌+◌, ◌*◌, ◌-◌, ◌^◌, ◌≤◌, ◌<◌, true, false, [], ◌∷◌, ◌++◌, Text, length, ◌≡◌, refl, arith, ◌==◌,
  ==_iff, Bool-cases, inl, inr,
}
use vorcaro_ledger.Protocol.Result.{ok}
use vorcaro_ledger.Protocol.Pattern.{
  is_exchange_rate, is_rate_shape, is_zero_rate, is_digits, all_units, is_digit, fraction_part,
  zero_fraction, is_zero_digit, skip_digits,
}
use vorcaro_ledger.Protocol.Decimal.{read_decimal, read_from}
use vorcaro_ledger.Policy.Amount.{Rate, parse_exchange_rate, before_dot, after_dot}

pub read_from-le : (acc : ℕ) (s : Text) → acc ≤ read_from acc s
unfolding read_from
read_from-le acc [] = omega arith
read_from-le acc (c ∷ s) = omega (arith, read_from-le (acc * 10 + (c - b'0')) s)

-- A digit other than zero makes the number positive.
read_from-pos :
    (acc : ℕ) (s : Text)
    → all_units is_digit s ≡ true
    → all_units is_zero_digit s ≡ false
    → 0 < read_from acc s
unfolding read_from all_units
read_from-pos acc [] digits nonzero = absurd (cc)
read_from-pos acc (c ∷ s) digits nonzero =
    ground (arith, read_from-le (acc * 10 + (c - b'0')) s, read_from-pos (acc * 10 + (c - b'0')) s)

before_dot-digits : (s : Text) → all_units is_digit s ≡ true → before_dot s ≡ s
unfolding before_dot all_units
before_dot-digits [] digits = refl
before_dot-digits (c ∷ s) digits = ground (arith, before_dot-digits s)

-- What a fraction part can be: nothing, or a dot and up to twelve digits.
data Fraction (s : Text) : Type 0 where
  whole : s ≡ [] → Fraction s
  dotted :
      (d : ℕ) (ds : Text)
      → s ≡ b'.' ∷ d ∷ ds
      → all_units is_digit (d ∷ ds) ≡ true
      → length (d ∷ ds) ≤ 12
      → Fraction s

Fraction-cases : (s : Text) → fraction_part s ≡ true → Fraction s
unfolding fraction_part is_digits
Fraction-cases [] h = Fraction.whole refl
Fraction-cases (c ∷ []) h = absurd (ground arith)
Fraction-cases (c ∷ d ∷ s) h = Fraction.dotted d s (ground arith) (ground arith) (ground arith)

after_dot-Fraction : (s : Text) → Fraction s → (before_dot s ≡ []) × (length (after_dot s) ≤ 12)
unfolding before_dot after_dot
after_dot-Fraction s (Fraction.whole e) = rw e (refl, omega arith)
after_dot-Fraction s (Fraction.dotted d ds e digits short) =
    rw e (refl, ground (arith, before_dot-digits (d ∷ ds) digits))

after_dot-skip_digits : (s : Text) → after_dot (skip_digits s) ≡ after_dot s
unfolding after_dot skip_digits
after_dot-skip_digits [] = refl
after_dot-skip_digits (c ∷ s) = ground (arith, after_dot-skip_digits s)

-- A zero before the dot leaves the fraction to be positive.
zero_leading :
    (s : Text)
    → Fraction s
    → zero_fraction s ≡ false
    → 0 < read_from 0 (before_dot (b'0' ∷ s) ++ after_dot (b'0' ∷ s))
unfolding before_dot after_dot read_from zero_fraction
zero_leading s (Fraction.whole e) nonzero =
    let none_left : zero_fraction [] ≡ false = rw e at nonzero in absurd (cc)
zero_leading s (Fraction.dotted d ds e digits short) nonzero =
    let nonzero' : zero_fraction (b'.' ∷ d ∷ ds) ≡ false = rw e at nonzero in
    rw (e, before_dot-digits (d ∷ ds) digits) (read_from-pos 0 (d ∷ ds) digits (ground arith))

-- Another digit before the dot makes the number positive.
digit_leading :
    (c : ℕ) (s : Text)
    → is_digit c ≡ true
    → (c == b'0') ≡ false
    → 0 < read_from 0 (before_dot (c ∷ s) ++ after_dot (c ∷ s))
unfolding before_dot read_from
digit_leading c s digit nonzero =
    ground (arith, read_from-le (c - b'0') (before_dot s ++ after_dot (c ∷ s)))

rate_digits :
    (value : Text)
    → is_exchange_rate value ≡ true
    → (0 < read_decimal (before_dot value ++ after_dot value)) × (length (after_dot value) ≤ 12)
unfolding is_exchange_rate is_rate_shape is_zero_rate read_decimal after_dot
rate_digits [] fits = absurd (cc)
rate_digits (c ∷ s) fits = elim (Bool-cases (c == b'0')) [
  | inl zero ↦
      let is : c ≡ b'0' = (==_iff c b'0').0 zero in
      let fraction = Fraction-cases s (ground arith) in
      let nonzero : zero_fraction s ≡ false = ground arith in
      rw is (zero_leading s fraction nonzero, (after_dot-Fraction s fraction).1)
  | inr other ↦
      let digit : is_digit c ≡ true = ground arith in
      let fraction = Fraction-cases (skip_digits s) (ground arith) in
      (
        digit_leading c s digit other,
        ground (arith, after_dot-skip_digits s, (after_dot-Fraction (skip_digits s) fraction).1),
      )
]

module _ (value : Text) (rate : Rate) where
  -- An exchange rate that is accepted is positive, and has between no and twelve decimal places.
  pub parse_exchange_rate-positive :
      parse_exchange_rate value ≡ ok rate
      → (0 < rate.numerator)
        × (rate.denominator ≡ 10 ^ length (after_dot value))
        × (length (after_dot value) ≤ 12)
  unfolding parse_exchange_rate
  parse_exchange_rate-positive h =
      let fits : is_exchange_rate value ≡ true = ground arith in
      let (positive, places) = rate_digits value fits in
      (ground (arith, positive), ground arith, places)
