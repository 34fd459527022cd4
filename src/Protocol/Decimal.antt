-- ===== src/Protocol/Decimal.antt =====
-- `value.toString(10)` on bigints, and `BigInt(text)` on digits.
use vorcaro_ledger.Prelude.{
  true, ℕ, zero, suc, ◌+◌, ◌*◌, ◌-◌, ◌/◌, ◌%◌, ◌<◌, ◌≡◌, ◌∙◌, ap, refl, [], ◌∷◌, ◌++◌, arith, ltb,
  if◌then◌else◌, Text, Bool-cases, inl, inr,
}
use vorcaro_ledger.Protocol.Pattern.{is_digit, all_units, is_digits}
use vorcaro_ledger.Prelude.Int.{ℤ, pos, negsuc}

-- The digits of a number, with as many rounds as the fuel.
decimal_rounds : ℕ → ℕ → Text
decimal_rounds zero n = []
decimal_rounds (suc fuel) n =
    let front = decimal_rounds fuel (n / 10) in
    if ltb n 10 then (b'0' + n) ∷ [] else front ++ (b'0' + n % 10) ∷ []

-- A number has fewer digits than its successor has units.
unfoldable pub decimal : ℕ → Text
unfolding decimal_rounds
decimal n = decimal_rounds (suc n) n

unfoldable pub decimal_ℤ : ℤ → Text
unfolding decimal
decimal_ℤ (pos n) = decimal n
decimal_ℤ (negsuc n) = b'-' ∷ decimal (suc n)

unfoldable pub read_from : ℕ → Text → ℕ
read_from acc [] = acc
read_from acc (c ∷ s) = read_from (acc * 10 + (c - b'0')) s

-- `BigInt(digits)`
unfoldable pub read_decimal : Text → ℕ
unfolding read_from
read_decimal = read_from 0

pub read_from-append :
    (acc : ℕ) (s t : Text) → read_from acc (s ++ t) ≡ read_from (read_from acc s) t
unfolding read_from
read_from-append acc [] t = refl
read_from-append acc (c ∷ s) t = read_from-append (acc * 10 + (c - b'0')) s t

last_digit : (n : ℕ) → n / 10 * 10 + (b'0' + n % 10 - b'0') ≡ n
last_digit n = omega arith

read_rounds : (fuel n : ℕ) → n < fuel → read_from 0 (decimal_rounds fuel n) ≡ n
unfolding decimal_rounds read_from
read_rounds zero n h = elim h [ ]
read_rounds (suc fuel) n h = elim (Bool-cases (ltb n 10)) [
  | inl small ↦ rw small (omega arith)
  | inr large ↦ rw large (
      read_from-append 0 (decimal_rounds fuel (n / 10)) ((b'0' + n % 10) ∷ [])
      ∙ ap (λ k. k * 10 + (b'0' + n % 10 - b'0')) (read_rounds fuel (n / 10) (ground arith))
      ∙ last_digit n)
]

-- Reading the decimal text of a number gives the number.
pub read_decimal-decimal : (n : ℕ) → read_decimal (decimal n) ≡ n
unfolding decimal read_decimal
read_decimal-decimal n = read_rounds (suc n) n (omega arith)

all_digits-append :
    (s : Text) (c : ℕ)
    → all_units is_digit s ≡ true
    → is_digit c ≡ true
    → all_units is_digit (s ++ c ∷ []) ≡ true
unfolding all_units
all_digits-append [] c h k = ground arith
all_digits-append (d ∷ s) c h k = ground (arith, all_digits-append s c (ground arith) k)

is_digits-append :
    (s : Text) (c : ℕ) → is_digits s ≡ true → is_digit c ≡ true → is_digits (s ++ c ∷ []) ≡ true
unfolding is_digits
is_digits-append [] c h k = absurd (ground arith)
is_digits-append (d ∷ s) c h k = ground (arith, all_digits-append s c (ground arith) k)

last_is_digit : (n : ℕ) → is_digit (b'0' + n % 10) ≡ true
last_is_digit n = ground arith

digits_rounds : (fuel n : ℕ) → n < fuel → is_digits (decimal_rounds fuel n) ≡ true
unfolding decimal_rounds is_digits all_units
digits_rounds zero n h = elim h [ ]
digits_rounds (suc fuel) n h = elim (Bool-cases (ltb n 10)) [
  | inl small ↦ rw small (ground (arith, small))
  | inr large ↦ rw large (
      is_digits-append (decimal_rounds fuel (n / 10)) (b'0' + n % 10)
        (digits_rounds fuel (n / 10) (ground arith)) (last_is_digit n))
]

pub is_digits-decimal : (n : ℕ) → is_digits (decimal n) ≡ true
unfolding decimal
is_digits-decimal n = digits_rounds (suc n) n (omega arith)
