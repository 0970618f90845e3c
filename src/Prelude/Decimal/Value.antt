-- ===== src/Prelude/Decimal/Value.antt =====
-- The number that a decimal text reads as.
use text.Mathlib.TextLemmas.{nil-append, cons-append}
use Prim.Native.Nat.{ℕ, zero, suc, ◌+◌, ◌-◌, ◌*◌, ◌/◌, ◌%◌, ◌<◌}
use Prim.Native.String.{String}
use mathlib.Core.Path.{◌≡◌, ◌∙◌}
use mathlib.Core.List.{List, [], ◌∷◌}
use mathlib.Core.Logic.{inl, inr}
use native.Mathlib.Omega.{arith}
use mkwanja_payment_service.Prelude.Tests.{◌==◌, Bool-cases}
use mkwanja_payment_service.Prelude.Text.{◌<>◌, codes}
use mkwanja_payment_service.Prelude.Decimal.{digit, decimal_from, decimal}

-- The number that a text of decimal digits writes, after the digits of `n`.
abbrev pub value_after : ℕ → List ℕ → ℕ
value_after n [] = n
value_after n (c ∷ cs) = value_after (n * 10 + (c - 48)) cs

abbrev pub value : String → ℕ
value s = value_after 0 (codes s)

digit-codes : (d : ℕ) → d < 10 → (s : String) → codes (digit d <> s) ≡ (48 + d) ∷ codes s
digit-codes zero h s = rw (cons-append, nil-append)
digit-codes (suc zero) h s = rw (cons-append, nil-append)
digit-codes (suc (suc zero)) h s = rw (cons-append, nil-append)
digit-codes (suc (suc (suc zero))) h s = rw (cons-append, nil-append)
digit-codes (suc (suc (suc (suc zero)))) h s = rw (cons-append, nil-append)
digit-codes (suc (suc (suc (suc (suc zero))))) h s = rw (cons-append, nil-append)
digit-codes (suc (suc (suc (suc (suc (suc zero)))))) h s = rw (cons-append, nil-append)
digit-codes (suc (suc (suc (suc (suc (suc (suc zero))))))) h s = rw (cons-append, nil-append)
digit-codes (suc (suc (suc (suc (suc (suc (suc (suc zero)))))))) h s = rw (cons-append, nil-append)
digit-codes (suc (suc (suc (suc (suc (suc (suc (suc (suc zero))))))))) h s =
    rw (cons-append, nil-append)
digit-codes (suc (suc (suc (suc (suc (suc (suc (suc (suc (suc d)))))))))) h s = ground arith

decimal_from-value :
    (fuel n : ℕ) (s : String)
    → n < fuel
    → value_after 0 (codes (decimal_from fuel n s)) ≡ value_after n (codes s)
unfolding decimal_from
decimal_from-value zero n s h = ground arith
decimal_from-value (suc fuel) n s h =
    let ends : n % 10 < 10 = omega arith in
    elim (Bool-cases (n / 10 == 0)) [
      | inl last ↦
          let whole : n % 10 ≡ n = ground arith in
          rw (last, digit-codes (n % 10) ends s, whole) (ground arith)
      | inr more ↦
          let less : n / 10 < fuel = ground arith in
          let back : n / 10 * 10 + n % 10 ≡ n = omega arith in
          rw (more) (
            decimal_from-value fuel (n / 10) (digit (n % 10) <> s) less
            ∙ rw (digit-codes (n % 10) ends s) (ground (arith, back)))
    ]

-- Enough fuel is given: the decimal text of a number reads as that number.
pub value-decimal : (n : ℕ) → value (decimal n) ≡ n
unfolding decimal
value-decimal n = decimal_from-value (suc n) n "" (omega arith)
