-- ===== src/Policy/Amount/Rounding.antt =====
-- Rounding in `defaultCurrencyAmountMinorUnits` of server/src/policy/engine.ts.
use native.Mathlib.Nat.{div-add-mod, mod-lt}
use vorcaro_ledger.Prelude.{ℕ, ◌+◌, ◌*◌, ◌-◌, ◌/◌, ◌%◌, ◌≤◌, ◌<◌, arith, Bool-cases, inl, inr, ◌==◌}
use vorcaro_ledger.Policy.Amount.{Rate, convert}

ceiling_bounds : (n d : ℕ) → 0 < d → (n ≤ (n + d - 1) / d * d) × ((n + d - 1) / d * d < n + d)
ceiling_bounds n d pos =
    let split = div-add-mod (n + d - 1) d in
    let small : (n + d - 1) % d < d = mod-lt (n + d - 1) pos in (omega arith, omega arith)

module _ (local : ℕ) (rate : Rate) (positive : 0 < rate.denominator) where
  -- At a rate with a positive denominator, a converted amount is the exact amount rounded up to a
  -- whole minor unit: the least number that is not below `local * numerator / denominator`.
  pub convert-ceiling :
      (local * rate.numerator ≤ convert local rate * rate.denominator)
      × (convert local rate * rate.denominator < local * rate.numerator + rate.denominator)
  unfolding convert
  convert-ceiling = elim (Bool-cases (local * rate.numerator == 0)) [
    | inl nothing ↦ rw nothing (ground arith)
    | inr something ↦
        rw something (ceiling_bounds (local * rate.numerator) rate.denominator positive)
  ]
