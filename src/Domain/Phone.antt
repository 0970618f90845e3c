-- ===== src/Domain/Phone.antt =====
-- Phone numbers: `NormalisePhone` and `phoneRegexp` of internal/domain/payment.go.
pub mod Forms
use mkwanja_payment_service.Prelude.{
  ℕ, String, Bool, true, false, ◌&&◌, ◌||◌, List, [], ◌∷◌, leb, ◌==◌, codes, rest_of, ◌<>◌,
  if◌then◌else◌,
}
use mkwanja_payment_service.Prelude.Result.{Result, ok, err, msg}

-- An anchored pattern is a list of classes, one for each character.
abbrev pub matches : List (ℕ → Bool) → List ℕ → Bool
matches [] [] = true
matches (p ∷ ps) (c ∷ cs) = p c && matches ps cs
matches _ _ = false

-- `\d`, `[17]`, and a character that stands for itself
abbrev pub is_digit : ℕ → Bool
is_digit c = leb b'0' c && leb c b'9'

abbrev pub is_1_or_7 : ℕ → Bool
is_1_or_7 c = c == b'1' || c == b'7'

abbrev pub is : ℕ → ℕ → Bool
is a c = c == a

-- `\d{8}`
abbrev pub eight_digits : List (ℕ → Bool)
eight_digits =
    is_digit ∷ is_digit ∷ is_digit ∷ is_digit ∷ is_digit ∷ is_digit ∷ is_digit ∷ is_digit ∷ []

-- `^0[17]\d{8}$`, `^\+254[17]\d{8}$` and `^2547\d{8}$`
abbrev pub local_form : List (ℕ → Bool)
local_form = is b'0' ∷ is_1_or_7 ∷ eight_digits

abbrev pub plus_form : List (ℕ → Bool)
plus_form = is b'+' ∷ is b'2' ∷ is b'5' ∷ is b'4' ∷ is_1_or_7 ∷ eight_digits

abbrev pub phone_form : List (ℕ → Bool)
phone_form = is b'2' ∷ is b'5' ∷ is b'4' ∷ is b'7' ∷ eight_digits

unfoldable pub is_phone : String → Bool
is_phone phone = matches phone_form (codes phone)

unfoldable pub normalise_phone : String → Result String
unfolding is_phone
normalise_phone phone =
    if matches local_form (codes phone)
    then ok ("254" <> rest_of phone)
    else if matches plus_form (codes phone)
    then ok (rest_of phone)
    else if is_phone phone
    then ok phone
    else err (msg ("unrecognised phone format: " <> phone))
