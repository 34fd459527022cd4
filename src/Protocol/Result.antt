-- ===== src/Protocol/Result.antt =====
-- What a call returns or throws.
use vorcaro_ledger.Prelude.{◌≡◌, refl, Bool, true, false, ◌⊎◌, inl, inr}
use vorcaro_ledger.Protocol.Types.{ErrorCode}

-- The exceptions by their class: one that carries an `errorCode` (PolicyError, PkiError,
-- RecoveryError), a zod refusal, a RangeError, a TypeError, a failed SQL statement and a bare Error.
pub data Thrown : Type 0 where
  coded : ErrorCode → Thrown
  zod_error range_error type_error sql_error plain_error : Thrown

pub data Result {ℓ} (A : Type ℓ) : Type ℓ where
  ok : A → Result A
  err : Thrown → Result A

-- `if (!passed) throw thrown`
abbrev pub guard : Bool → Thrown → Result (Unit {0})
guard passed thrown = elim passed [ true ↦ ok tt | false ↦ err thrown ]

infixl 5 ◌>>=◌ ◌>>◌
abbrev pub ◌>>=◌ {ℓ κ} : {A : Type ℓ} {B : Type κ} → Result A → (A → Result B) → Result B
◌>>=◌ r next = elim r [ ok a ↦ next a | err thrown ↦ err thrown ]

abbrev pub ◌>>◌ {ℓ} : {B : Type ℓ} → Result (Unit {0}) → Result B → Result B
first >> second = first >>= λ _. second

pub Result-cases {ℓ} :
    {A : Type ℓ} (r : Result A) → ((a : A) × (r ≡ ok a)) ⊎ ((e : Thrown) × (r ≡ err e))
Result-cases (ok a) = inl (a, refl)
Result-cases (err e) = inr (e, refl)

-- A chain that returns has returned at each step.
pub bind_ok {ℓ κ} :
    {A : Type ℓ} {B : Type κ} (r : Result A) (next : A → Result B) (b : B)
    → (r >>= next) ≡ ok b
    → (a : A) × (r ≡ ok a) × (next a ≡ ok b)
bind_ok (ok a) next b h = (a, refl, h)
bind_ok (err e) next b h = absurd (cc)
