-- ===== src/Prelude/Result.antt =====
-- Go's errors as values. `fmt.Errorf` with `%w` is `wrap`; a plain message is `msg`.
use Prim.Native.String.{String}
use mathlib.Core.Path.{◌≡◌, refl}
use mathlib.Core.Logic.{◌⊎◌, inl, inr}
use mathlib.Core.Bool.{Bool}
use mkwanja_payment_service.Prelude.Tests.{if◌then◌else◌}

-- What a statement on the database reports.
pub data SqlError : Type 0 where
  no_rows : SqlError
  constraint : String → SqlError
  unavailable : SqlError

pub data Error : Type 0 where
  msg : String → Error
  sql : SqlError → Error
  wrap : String → Error → Error

pub data Result {ℓ} (A : Type ℓ) : Type ℓ where
  ok : A → Result A
  err : Error → Result A

-- `if err != nil { return fmt.Errorf(context + ": %w", err) }`
abbrev pub wrap_err {ℓ} : {A : Type ℓ} → String → Result A → Result A
wrap_err context (ok a) = ok a
wrap_err context (err e) = err (wrap context e)

-- A list of guards, each with the message that it returns; the first that holds is reported.
infixr 10 ◌fails_with◌then◌
abbrev pub ◌fails_with◌then◌ {ℓ} : {A : Type ℓ} → Bool → String → Result A → Result A
b fails_with m then r = if b then err (msg m) else r

abbrev pub succeeds {ℓ} : {A : Type ℓ} → Result A → Bool
succeeds (ok a) = mathlib.Core.Bool.true
succeeds (err e) = mathlib.Core.Bool.false

pub Result-cases {ℓ} :
    {A : Type ℓ} (r : Result A) → ((e : Error) × (r ≡ err e)) ⊎ ((a : A) × (r ≡ ok a))
Result-cases (err e) = inl (e, refl)
Result-cases (ok a) = inr (a, refl)

pub ok_inj {ℓ} : {A : Type ℓ} (a b : A) → ok a ≡ ok b → a ≡ b
ok_inj a b e = cc
