-- ===== src/Daraja/Phone.antt =====
-- Phone numbers in the Daraja package: internal/daraja/webhook.go. `unicode.IsDigit` is a parameter.
pub mod Agrees
use Prim.Native.Char.{code}
use mkwanja_payment_service.Prelude.{
  ℕ, String, Bool, true, false, ◌∷◌, [], List, ◌==◌, codes, rest_of, ◌<>◌, if◌then◌else◌,
}

-- strings.HasPrefix(normalized, "0")
abbrev pub begins_with_zero : List ℕ → Bool
begins_with_zero [] = false
begins_with_zero (c ∷ cs) = c == b'0'

module _ (is_decimal : ℕ → Bool) where
  -- The loop over the runes, with its strings.Builder.
  unfoldable pub digits_of : String → String
  digits_of String.[] = ""
  digits_of (String.◌∷◌ c s) =
      let rest = digits_of s in if is_decimal (code c) then String.◌∷◌ c rest else rest

  unfoldable pub normalize_phone : String → String
  unfolding digits_of
  normalize_phone phone =
      let normalized = digits_of phone in
      if begins_with_zero (codes normalized) then "254" <> rest_of normalized else normalized
