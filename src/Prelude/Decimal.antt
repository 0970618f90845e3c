-- ===== src/Prelude/Decimal.antt =====
-- `fmt.Sprintf("%d", n)`: the decimal text of an integer.
pub mod Value
use mkwanja_payment_service.Prelude.Tests.{◌==◌, if◌then◌else◌}
use mkwanja_payment_service.Prelude.Text.{◌<>◌}
use mkwanja_payment_service.Prelude.Int.{ℤ, pos, negsuc}
use Prim.Native.Nat.{ℕ, zero, suc, ◌/◌, ◌%◌}
use Prim.Native.String.{String}

abbrev pub digit : ℕ → String
digit d =
    if d == 0
    then "0"
    else if d == 1
    then "1"
    else if d == 2
    then "2"
    else if d == 3
    then "3"
    else if d == 4
    then "4"
    else if d == 5
    then "5"
    else if d == 6
    then "6"
    else if d == 7
    then "7"
    else if d == 8
    then "8"
    else "9"

-- The digits of `n` in front of `after`. The fuel is above the number, so it never runs out.
unfoldable pub decimal_from : ℕ → ℕ → String → String
decimal_from zero n after = after
decimal_from (suc fuel) n after =
    let rest = decimal_from fuel (n / 10) (digit (n % 10) <> after) in
    if n / 10 == 0 then digit (n % 10) <> after else rest

unfoldable pub decimal : ℕ → String
unfolding decimal_from
decimal n = decimal_from (suc n) n ""

unfoldable pub decimal_int : ℤ → String
unfolding decimal
decimal_int (pos n) = decimal n
decimal_int (negsuc n) = "-" <> decimal (suc n)
