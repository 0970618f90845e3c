-- ===== src/Service/Initiate/Amount.antt =====
-- The amount that a request to the provider names, in shillings, and the amount of the payment, in cents
-- (internal/service/payment_service.go).
use mkwanja_payment_service.Prelude.{◌*◌, ◌/◌, ◌≡◌, false, arith}
use mkwanja_payment_service.Prelude.Int.{ℤ, pos, negsuc, ◌≤ℤ◌, leb_ℤ}
use mkwanja_payment_service.Prelude.Decimal.{decimal_int}
use mkwanja_payment_service.Prelude.Decimal.Value.{value, value-decimal}
use mkwanja_payment_service.Prelude.Result.{ok}
use mkwanja_payment_service.Service.Requests.{
  InitiateStkPushRequest, InitiateB2cRequest, InitiateB2bRequest, has_remainder, validate_stk_push,
  validate_b2c, validate_b2b,
}
use mkwanja_payment_service.Service.Initiate.Common.{amount_kes}

-- The amount is positive, and its text in shillings is worth the cents.
abbrev pub IsExact : ℤ → Type 0
IsExact cents = (pos 1 ≤ℤ cents) × (pos (value (amount_kes cents) * 100) ≡ cents)

IsExact-guards :
    (cents : ℤ) → leb_ℤ cents (pos 0) ≡ false → has_remainder cents ≡ false → IsExact cents
unfolding decimal_int
IsExact-guards (pos n) positive whole = (ground arith, rw (value-decimal (n / 100)) (ground arith))
IsExact-guards (negsuc n) positive whole = (ground arith, ground arith)

-- A STK push request that `Validate` accepts has a positive amount, and the text that the provider is
-- sent reads as a number of shillings worth exactly that many cents.
pub validate_stk_push-IsExact :
    (r : InitiateStkPushRequest) → validate_stk_push r ≡ ok tt → IsExact r.amount_cents
unfolding validate_stk_push
validate_stk_push-IsExact r valid = IsExact-guards r.amount_cents (ground arith) (ground arith)

-- A B2C request that `Validate` accepts has a positive amount, and the text that the provider is sent
-- reads as a number of shillings worth exactly that many cents.
pub validate_b2c-IsExact :
    (r : InitiateB2cRequest) → validate_b2c r ≡ ok tt → IsExact r.amount_cents
unfolding validate_b2c
validate_b2c-IsExact r valid = IsExact-guards r.amount_cents (ground arith) (ground arith)

-- A B2B request that `Validate` accepts has a positive amount, and the text that the provider is sent
-- reads as a number of shillings worth exactly that many cents.
pub validate_b2b-IsExact :
    (r : InitiateB2bRequest) → validate_b2b r ≡ ok tt → IsExact r.amount_cents
unfolding validate_b2b
validate_b2b-IsExact r valid = IsExact-guards r.amount_cents (ground arith) (ground arith)
